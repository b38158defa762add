-- ===== src/PropertiesReader/Lines.antt =====
-- What `parseLine` of src/util/PropertiesReader.cpp makes of a line.
use aeron_archive_client.Prelude.{
  ℕ, ◌+◌, ◌≡◌, refl, ◌∙◌, Bool, true, not, ◌&&◌, [], ◌∷◌, ◌++◌, append_assoc, arith, Bytes, ◌==◌,
  length, all, take, drop, length-append, drop-append,
}
use aeron_archive_client.Prelude.Result.{Result, ok}
use aeron_archive_client.PropertiesReader.{
  start, key, value, LineScan, round_in, conclude_in, scan_line, initial, parse_line, is_space,
  rtrim, trim, substring,
}

abbrev pub is_key_byte : ℕ → Bool
is_key_byte c = not (c == b'=') && not (c == b'#')

abbrev pub is_value_byte : ℕ → Bool
is_value_byte c = not (c == b'#')

-- White space in front of a line only moves the index.
pub scan-blanks :
    (line blanks rest : Bytes) (s : LineScan)
    → s.state ≡ start
    → all is_space blanks ≡ true
    → scan_line line s (blanks ++ rest) ≡ scan_line line (record s { i = s.i + length blanks }) rest
unfolding scan_line round_in
scan-blanks line [] rest s st h = ground arith
scan-blanks line (c ∷ cs) rest s st h =
    ground (arith, scan-blanks line cs rest (record s { i = s.i + 1 }))

-- So do the bytes of a key, and those of a value.
pub scan-key :
    (line k rest : Bytes) (s : LineScan)
    → s.state ≡ key
    → all is_key_byte k ≡ true
    → scan_line line s (k ++ rest) ≡ scan_line line (record s { i = s.i + length k }) rest
unfolding scan_line round_in
scan-key line [] rest s st h = ground arith
scan-key line (c ∷ cs) rest s st h =
    ground (arith, scan-key line cs rest (record s { i = s.i + 1 }))

scan-value :
    (line v rest : Bytes) (s : LineScan)
    → s.state ≡ value
    → all is_value_byte v ≡ true
    → scan_line line s (v ++ rest) ≡ scan_line line (record s { i = s.i + length v }) rest
unfolding scan_line round_in
scan-value line [] rest s st h = ground arith
scan-value line (c ∷ cs) rest s st h =
    ground (arith, scan-value line cs rest (record s { i = s.i + 1 }))

-- What ends a value: the end of the line, or a comment.
abbrev pub IsTail : Bytes → Type 0
IsTail [] = Unit
IsTail (c ∷ cs) = c ≡ b'#'

-- A byte that begins a key.
abbrev pub begins_key : ℕ → Bool
begins_key c = not (is_space c) && not (c == b'#')

-- The result for a line `key=value`, in terms of the two calls of the `std::string` constructor.
abbrev sliced_at : Bytes → ℕ → ℕ → ℕ → Result (Bytes × Bytes)
sliced_at line b n e = ok (rtrim (substring line b n), trim (substring line (n + 1) e))

scan-tail :
    (line tail : Bytes) (s : LineScan)
    → s.state ≡ value
    → IsTail tail
    → scan_line line s tail ≡ ok (s.first, trim (substring line s.pos s.i))
unfolding scan_line round_in conclude_in
scan-tail line [] s st h = ground arith
scan-tail line (c ∷ cs) s st h = ground arith

scan-pair :
    (line : Bytes) (c : ℕ) (k v tail : Bytes) (s : LineScan)
    → s.state ≡ start
    → begins_key c ≡ true
    → all is_key_byte k ≡ true
    → all is_value_byte v ≡ true
    → IsTail tail
    → scan_line line s (c ∷ (k ++ b'=' ∷ (v ++ tail)))
      ≡ sliced_at line s.i (s.i + 1 + length k) (s.i + 1 + length k + 1 + length v)
unfolding scan_line round_in
scan-pair line c k v tail s st hc hk hv ht =
    let at_key = record s { state = key; pos = s.i; i = s.i + 1 } in
    let n = s.i + 1 + length k in
    let at_value = record at_key {
      state = value;
      first = rtrim (substring line s.i n);
      pos = n + 1;
      i = n + 1;
    } in
    ground (
      arith,
      scan-key line k (b'=' ∷ (v ++ tail)) at_key refl hk,
      scan-value line v tail at_value refl hv,
      scan-tail line tail (record at_value { i = n + 1 + length v }) refl ht,
    )

drop_behind : (xs ys : Bytes) (n : ℕ) → n ≡ length xs → drop n (xs ++ ys) ≡ ys
drop_behind xs ys n e = rw e (drop-append xs ys)

-- The text behind the '='.
drop-pair :
    (blanks : Bytes) (c : ℕ) (k rest : Bytes)
    → drop (length blanks + 1 + length k + 1) (blanks ++ c ∷ (k ++ b'=' ∷ rest)) ≡ rest
drop-pair blanks c k rest =
    let front = blanks ++ c ∷ (k ++ b'=' ∷ []) in
    let split : blanks ++ c ∷ (k ++ b'=' ∷ rest) ≡ front ++ rest = simp append_assoc in
    let n : length blanks + 1 + length k + 1 ≡ length front =
      omega (arith, length-append blanks (c ∷ (k ++ b'=' ∷ [])), length-append k (b'=' ∷ [])) in
    rw split (drop_behind front rest _ n)

-- The line `<blanks><key>=<value><tail>`, where the key begins with `c` and the tail is empty or a
-- comment. The key is cut off after as many bytes as stand in front of the '=', counted from the
-- first byte of the key; the value after as many as stand in front of the tail, counted from the
-- first byte of the value.
pub parse_line-pair :
    (blanks : Bytes) (c : ℕ) (k v tail : Bytes)
    → all is_space blanks ≡ true
    → begins_key c ≡ true
    → all is_key_byte k ≡ true
    → all is_value_byte v ≡ true
    → IsTail tail
    → parse_line (blanks ++ c ∷ (k ++ b'=' ∷ (v ++ tail)))
      ≡ ok (
        rtrim (take (length blanks + 1 + length k) (c ∷ (k ++ b'=' ∷ (v ++ tail)))),
        trim (take (length blanks + 1 + length k + 1 + length v) (v ++ tail)),
      )
unfolding parse_line
parse_line-pair blanks c k v tail hb hc hk hv ht =
    let rest = c ∷ (k ++ b'=' ∷ (v ++ tail)) in
    let line = blanks ++ rest in
    let at = record initial { i = length blanks } in
    let b : 0 + length blanks ≡ length blanks = omega arith in
    let moved = rw b at (scan-blanks line blanks rest initial refl hb) in
    let result = scan-pair line c k v tail at refl hc hk hv ht in
    moved ∙ (rw (drop-append blanks rest, drop-pair blanks c k (v ++ tail)) at result)
