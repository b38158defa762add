-- ===== src/RecordingPos/Find.antt =====
-- The searches of src/RecordingPos.cpp find the first counter of a recording or a session.
use aeron_archive_client.Prelude.{
  ℕ, zero, suc, ◌+◌, ◌≤◌, ◌<◌, ◌≡◌, ◌≢◌, ◌↔◌, ◌⊎◌, inl, inr, refl, Bool, true, false, ◌&&◌, arith,
  Bool-cases, if◌then◌else◌,
}
use aeron_archive_client.Prelude.Int.{ℤ, pos, minus_one, ◌==ℤ◌}
use aeron_archive_client.RecordingPos.{
  CountersReader, is_allocated, is_recording_position, recording_at, session_at, search_from,
  find_counter_id_by_recording, find_counter_id_by_session, get_recording_id, is_active,
}

eq_or_later : (i l : ℕ) → i ≤ l → (i ≡ l) ⊎ (i + 1 ≤ l)
eq_or_later i l a = grind arith

module _ (r : CountersReader) where
  -- Counter `i` is in use for a recording, with the wanted number under its key.
  pub record IsCounterOf (key_at : ℤ → ℤ) (wanted : ℤ) (i : ℕ) : Type 0 where
    pub allocated : is_allocated r (pos i) ≡ true
    pub recording_position : is_recording_position r (pos i) ≡ true
    pub key : key_at (pos i) ≡ wanted

  -- What a search among the counters from `i` up to `j` gives: the first that fits, or -1 if none does.
  pub data Found (key_at : ℤ → ℤ) (wanted : ℤ) (i j : ℕ) (result : ℤ) : Type 0 where
    first :
        (k : ℕ)
        → result ≡ pos k
        → i ≤ k
        → k < j
        → IsCounterOf key_at wanted k
        → ((l : ℕ) → i ≤ l → l < k → ¬ IsCounterOf key_at wanted l)
        → Found key_at wanted i j result
    absent :
        result ≡ minus_one
        → ((l : ℕ) → i ≤ l → l < j → ¬ IsCounterOf key_at wanted l)
        → Found key_at wanted i j result

  module _ (key_at : ℤ → ℤ) (wanted : ℤ) where
    fits : ℕ → Bool
    fits i =
        is_allocated r (pos i) && (is_recording_position r (pos i) && key_at (pos i) ==ℤ wanted)

    fits_iff : (i : ℕ) → (fits i ≡ true) ↔ IsCounterOf key_at wanted i
    unfolding fits
    fits_iff i = (
      λ h. record {
        allocated = ground arith;
        recording_position = ground arith;
        key = ground arith;
      },
      λ c. ground (arith, c.allocated, c.recording_position, c.key),
    )

    search_from-suc :
        (n i : ℕ)
        → search_from r key_at wanted (suc n) i
          ≡ (if fits i then pos i else search_from r key_at wanted n (i + 1))
    unfolding search_from fits
    search_from-suc n i = ground arith

    none_at : (i : ℕ) → fits i ≡ false → ¬ IsCounterOf key_at wanted i
    none_at i h c = cc (h, (fits_iff i).1 c)

    none_from :
        (i j : ℕ)
        → ¬ IsCounterOf key_at wanted i
        → ((l : ℕ) → i + 1 ≤ l → l < j → ¬ IsCounterOf key_at wanted l)
        → (l : ℕ) → i ≤ l
        → l < j
        → ¬ IsCounterOf key_at wanted l
    none_from i j here later l a b = elim (eq_or_later i l a) [
      | inl e ↦ rw (← e) here
      | inr p ↦ later l p b
    ]

    widen :
        (i j : ℕ) {z : ℤ}
        → ¬ IsCounterOf key_at wanted i
        → Found key_at wanted (i + 1) j z
        → Found key_at wanted i j z
    widen i j here (first k q a b c before) =
        first k q (omega arith) b c (none_from i k here before)
    widen i j here (absent q before) = absent q (none_from i j here before)

    search_from-Found :
        (n i j : ℕ) → i + n ≡ j → Found key_at wanted i j (search_from r key_at wanted n i)
    search_from-Found zero i j e = unfold search_from in absent refl (λ l a b. absurd (omega arith))
    search_from-Found (suc n) i j e = elim (Bool-cases (fits i)) [
      | inl fit ↦
          rw (search_from-suc, fit)
            (first i refl (omega arith) (omega arith) ((fits_iff i).0 fit)
              (λ l a b. absurd (omega arith)))
      | inr no_fit ↦
          rw (search_from-suc, no_fit)
            (widen i j (none_at i no_fit) (search_from-Found n (i + 1) j (omega arith)))
    ]

  -- `findCounterIdByRecording` gives the first counter in use for the recording, or -1 if none is.
  pub find_counter_id_by_recording-Found :
      (recording_id : ℤ)
      → Found
          (recording_at r)
          recording_id
          0
          r.max_counter_id
          (find_counter_id_by_recording r recording_id)
  unfolding find_counter_id_by_recording
  find_counter_id_by_recording-Found recording_id =
      search_from-Found (recording_at r) recording_id r.max_counter_id 0 r.max_counter_id
        (omega arith)

  -- `findCounterIdBySession` gives the first counter in use for the session, or -1 if none is.
  pub find_counter_id_by_session-Found :
      (session_id : ℤ)
      → Found (session_at r) session_id 0 r.max_counter_id (find_counter_id_by_session r session_id)
  unfolding find_counter_id_by_session
  find_counter_id_by_session-Found session_id =
      search_from-Found (session_at r) session_id r.max_counter_id 0 r.max_counter_id (omega arith)

  -- A counter that was found for a recording is one from which `getRecordingId` reads the recording,
  -- and `isActive` holds of the two.
  pub is_active-find_counter_id_by_recording :
      (recording_id : ℤ)
      → find_counter_id_by_recording r recording_id ≢ minus_one
      → (get_recording_id r (find_counter_id_by_recording r recording_id) ≡ recording_id)
        × (is_active r (find_counter_id_by_recording r recording_id) recording_id ≡ true)
  unfolding get_recording_id is_active
  is_active-find_counter_id_by_recording recording_id ne =
      by_case (find_counter_id_by_recording r recording_id) ne
        (find_counter_id_by_recording-Found recording_id)
    where
      by_case :
          (z : ℤ)
          → z ≢ minus_one
          → Found (recording_at r) recording_id 0 r.max_counter_id z
          → (get_recording_id r z ≡ recording_id) × (is_active r z recording_id ≡ true)
      by_case z nz (absent q before) = absurd (nz q)
      by_case z nz (first k q a b c before) =
          ground (arith, q, c.allocated, c.recording_position, c.key)

  -- `isActive` holds exactly of a counter that is in use for the recording, except that the id -1
  -- also passes for every counter that is not in use for a recording.
  pub is_active_iff :
      (counter_id : ℕ) (recording_id : ℤ)
      → (is_active r (pos counter_id) recording_id ≡ true) ↔ (
          IsCounterOf (recording_at r) recording_id counter_id
          ⊎ (recording_id ≡ minus_one)
            × ((is_allocated r (pos counter_id) ≡ false)
                ⊎ (is_recording_position r (pos counter_id) ≡ false)))
  unfolding is_active
  is_active_iff counter_id recording_id = (
    λ h. elim (Bool-cases (is_allocated r (pos counter_id))) [
      | inl a ↦ elim (Bool-cases (is_recording_position r (pos counter_id))) [
        | inl p ↦ inl (record { allocated = a; recording_position = p; key = ground arith })
        | inr p ↦ inr (ground arith, inr p)
      ]
      | inr a ↦ inr (ground arith, inl a)
    ],
    λ h. ground arith,
  )
