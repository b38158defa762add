-- ===== src/PropertiesReader/LineKinds.antt =====
-- Some kinds of lines, as `parseLine` of src/util/PropertiesReader.cpp reads them.
use aeron_archive_client.Prelude.{
  zero, ◌≤◌, ℕ, suc, ◌+◌, ◌≡◌, refl, ap, ◌∙◌, true, [], ◌∷◌, ◌++◌, append-nil, arith, Bytes, length,
  all, take,
}
use aeron_archive_client.Prelude.Result.{ok, err, no_value}
use aeron_archive_client.PropertiesReader.{
  start, key, LineScan, round_in, conclude_in, scan_line, initial, parse_line, is_space, rtrim,
  trim,
}
use aeron_archive_client.PropertiesReader.Lines.{
  IsTail, is_key_byte, is_value_byte, begins_key, scan-blanks, scan-key, parse_line-pair,
}

take_all : (xs : Bytes) (n : ℕ) → length xs ≤ n → take n xs ≡ xs
take_all [] zero h = refl
take_all [] (suc n) h = refl
take_all (x ∷ xs) zero h = absurd (omega arith)
take_all (x ∷ xs) (suc n) h = ap (◌∷◌ x) (take_all xs n (omega arith))

take_front : (xs ys : Bytes) (n m : ℕ) → n ≡ length xs + m → take n (xs ++ ys) ≡ xs ++ take m ys
take_front [] ys n m h = let e : n ≡ m = omega arith in rw e
take_front (x ∷ xs) ys zero m h = absurd (omega arith)
take_front (x ∷ xs) ys (suc n) m h = ap (◌∷◌ x) (take_front xs ys n m (omega arith))

-- A line `key=value` without white space in front and without a comment gives the key without the
-- white space behind it, and the value without that on both sides.
pub parse_line_plain :
    (c : ℕ) (k v : Bytes)
    → begins_key c ≡ true
    → all is_key_byte k ≡ true
    → all is_value_byte v ≡ true
    → parse_line (c ∷ (k ++ b'=' ∷ v)) ≡ ok (rtrim (c ∷ k), trim v)
parse_line_plain c k v hc hk hv =
    let e = parse_line-pair [] c k v [] refl hc hk hv tt in
    let key_whole : take (0 + 1 + length k) (c ∷ (k ++ b'=' ∷ v)) ≡ (c ∷ k) ++ [] =
      take_front (c ∷ k) (b'=' ∷ v) (0 + 1 + length k) 0 (omega arith) in
    let value_whole : take (0 + 1 + length k + 1 + length v) v ≡ v = take_all v _ (omega arith) in
    simp (append-nil, key_whole, value_whole) at e

-- A comment behind a value is not cut off: as many bytes of it as stand in front of the value are
-- taken for a part of the value, the '#' always.
pub parse_line_comment :
    (blanks : Bytes) (c : ℕ) (k v comment : Bytes)
    → all is_space blanks ≡ true
    → begins_key c ≡ true
    → all is_key_byte k ≡ true
    → all is_value_byte v ≡ true
    → (name : Bytes) × (parse_line (blanks ++ c ∷ (k ++ b'=' ∷ (v ++ b'#' ∷ comment)))
        ≡ ok (name, trim (v ++ b'#' ∷ take (length blanks + 1 + length k) comment)))
parse_line_comment blanks c k v comment hb hc hk hv =
    let n = length blanks + 1 + length k in
    let cut = take_front v (b'#' ∷ comment) (n + 1 + length v) (suc n) (omega arith) in
    (_, rw cut at (parse_line-pair blanks c k v (b'#' ∷ comment) hb hc hk hv refl))

-- White space in front of a line makes the '=' a part of the key.
pub parse_line_indented :
    (b : ℕ) (blanks : Bytes) (c : ℕ) (k v : Bytes)
    → all is_space (b ∷ blanks) ≡ true
    → begins_key c ≡ true
    → all is_key_byte k ≡ true
    → all is_value_byte v ≡ true
    → parse_line (b ∷ (blanks ++ c ∷ (k ++ b'=' ∷ v)))
      ≡ ok (rtrim (c ∷ (k ++ b'=' ∷ take (length blanks) v)), trim v)
parse_line_indented b blanks c k v hb hc hk hv =
    let n = length (b ∷ blanks) + 1 + length k in
    let e = parse_line-pair (b ∷ blanks) c k v [] hb hc hk hv tt in
    let key_longer : take n (c ∷ (k ++ b'=' ∷ v)) ≡ (c ∷ k) ++ b'=' ∷ take (length blanks) v =
      take_front (c ∷ k) (b'=' ∷ v) n (suc (length blanks)) (omega arith) in
    let value_whole : take (n + 1 + length v) v ≡ v = take_all v _ (omega arith) in
    simp (append-nil, key_longer, value_whole) at e

-- A line of white space alone, or with a comment behind it, is an entry with an empty key.
pub parse_line_skipped :
    (blanks tail : Bytes)
    → all is_space blanks ≡ true
    → IsTail tail
    → parse_line (blanks ++ tail) ≡ ok ([], [])
parse_line_skipped blanks [] hb ht =
    unfold parse_line scan_line conclude_in in scan-blanks _ blanks [] initial refl hb
parse_line_skipped blanks (c ∷ cs) hb ht =
    unfold parse_line in
    (scan-blanks _ blanks (c ∷ cs) initial refl hb
      ∙ unfold scan_line round_in is_space in ground arith)

scan_key_tail :
    (line tail : Bytes) (s : LineScan)
    → s.state ≡ key
    → IsTail tail
    → scan_line line s tail ≡ err (no_value line)
unfolding scan_line round_in conclude_in
scan_key_tail line [] s st h = ground arith
scan_key_tail line (c ∷ cs) s st h = ground arith

scan_key_only :
    (line : Bytes) (c : ℕ) (k tail : Bytes) (s : LineScan)
    → s.state ≡ start
    → begins_key c ≡ true
    → all is_key_byte k ≡ true
    → IsTail tail
    → scan_line line s (c ∷ (k ++ tail)) ≡ err (no_value line)
unfolding scan_line round_in
scan_key_only line c k tail s st hc hk ht =
    let at_key = record s { state = key; pos = s.i; i = s.i + 1 } in
    ground (
      arith,
      scan-key line k tail at_key refl hk,
      scan_key_tail line tail (record at_key { i = s.i + 1 + length k }) refl ht,
    )

-- A line without a '=' in front of a comment raises an error, which shows the line.
pub parse_line_no_value :
    (blanks : Bytes) (c : ℕ) (k tail : Bytes)
    → all is_space blanks ≡ true
    → begins_key c ≡ true
    → all is_key_byte k ≡ true
    → IsTail tail
    → parse_line (blanks ++ c ∷ (k ++ tail)) ≡ err (no_value (blanks ++ c ∷ (k ++ tail)))
unfolding parse_line
parse_line_no_value blanks c k tail hb hc hk ht =
    let line = blanks ++ c ∷ (k ++ tail) in
    scan-blanks line blanks (c ∷ (k ++ tail)) initial refl hb
    ∙ scan_key_only line c k tail (record initial { i = 0 + length blanks }) refl hc hk ht
