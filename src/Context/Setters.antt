-- ===== src/Context/Setters.antt =====
-- `conclude` of src/Context.cpp.
use aeron_archive_client.Prelude.{
  Option-cases, inl, inr, ◌≡◌, none, some, arith, Bytes, is_empty, if◌then◌else◌,
}
use aeron_archive_client.Prelude.Result.{ok, Result-cases}
use aeron_archive_client.Context.{Context, AeronClient, conclude}

module _ {A : Type 0} (client : AeronClient A) where
  -- What holds after `conclude`: a handle on Aeron, the caller's if there was one, and a directory,
  -- the caller's if it gave one; the configuration and the channel are as before.
  pub record IsConcluded (c c' : Context A) : Type 0 where
    pub handle : A
    pub connected : c'.aeron ≡ some handle
    pub kept : (a : A) → c.aeron ≡ some a → a ≡ handle
    pub opened :
        c.aeron ≡ none
        → (client.connect c'.aeron_directory_name ≡ ok handle)
          × (c'.aeron_context ≡ some c'.aeron_directory_name)
    pub directory : c'.aeron_directory_name ≡ (
        if is_empty c.aeron_directory_name
        then client.default_aeron_path
        else c.aeron_directory_name)
    pub same_cfg : c'.cfg ≡ c.cfg
    pub same_channel : c'.control_request_channel ≡ c.control_request_channel

  -- A `conclude` that returns leaves the context so, and a second one changes nothing.
  pub conclude-IsConcluded :
      (c : Context A) {c' : Context A}
      → conclude client c ≡ ok c'
      → IsConcluded c c' × (conclude client c' ≡ ok c')
  unfolding conclude
  conclude-IsConcluded c {c'} h = elim (Option-cases c.aeron) [
    | inl absent ↦
        let directory : Bytes =
          if is_empty c.aeron_directory_name
          then client.default_aeron_path
          else c.aeron_directory_name in
        elim (Result-cases (client.connect directory)) [
          | inl (a, connected) ↦ (
            record {
              handle = a;
              connected = ground arith;
              kept = λ b e. cc;
              opened = λ e. ground arith;
              directory = ground arith;
              same_cfg = ground arith;
              same_channel = ground arith;
            },
            ground arith,
          )
          | inr (e, refused) ↦ absurd (ground arith)
        ]
    | inr (a, present) ↦ (
      record {
        handle = a;
        connected = ground arith;
        kept = λ b e. cc;
        opened = λ e. absurd (cc);
        directory = ground arith;
        same_cfg = ground arith;
        same_channel = ground arith;
      },
      ground arith,
    )
  ]
