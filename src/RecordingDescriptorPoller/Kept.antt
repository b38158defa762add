-- ===== src/RecordingDescriptorPoller/Kept.antt =====
-- What src/RecordingDescriptorPoller.cpp keeps of a list request: its consumer and correlation id.
use aeron_archive_client.Prelude.{false, ◌≡◌, refl, inl, inr, ◌∙◌, ◌&&◌, ◌==◌, Bool-cases, List}
use aeron_archive_client.Prelude.Int.{ℤ, pos, ◌-ℤ◌, ◌==ℤ◌}
use aeron_archive_client.Prelude.Result.{Result-cases}
use aeron_archive_client.Aeron.Subscription.{deliver}
use aeron_archive_client.Aeron.Delivered.{deliver-keeps}
use aeron_archive_client.Codecs.{Decoders}
use aeron_archive_client.RecordingDescriptorPoller.{
  Consumer, DescriptorPoller, on_response, on_descriptor, on_fragment,
}

-- The poller serves the request with this correlation id and consumer.
pub record Serves (correlation : ℤ) (consumer : Consumer) (s : DescriptorPoller) : Type 0 where
  pub correlation_is : s.correlation_id ≡ correlation
  pub consumer_is : s.consumer ≡ consumer

module _ {M : Type 0} (d : Decoders M) (session correlation : ℤ) (consumer : Consumer) where
  abbrev Serving : DescriptorPoller → Type 0
  Serving = Serves correlation consumer

  kept :
      (s t : DescriptorPoller)
      → Serving s
      → t.correlation_id ≡ s.correlation_id
      → t.consumer ≡ s.consumer
      → Serving t
  kept s t v e f = record { correlation_is = e ∙ v.correlation_is; consumer_is = f ∙ v.consumer_is }

  on_response-Serves :
      (m : M) (s : DescriptorPoller) → Serving s → Serving (on_response d session m s).1
  unfolding on_response
  on_response-Serves m s v = elim (Result-cases (d.as_response m)) [
    | inr (e, h) ↦ rw h v
    | inl (msg, h) ↦ elim (Bool-cases (session ==ℤ msg.control_session_id)) [
      | inr other ↦ rw (h, other) v
      | inl own ↦ elim (Result-cases msg.code) [
        | inr (e, c) ↦ rw (h, own, c) v
        | inl (code, c) ↦
            elim (Bool-cases
              (code ==ℤ d.recording_unknown_code && s.correlation_id ==ℤ msg.correlation_id)) [
                | inl unknown ↦ rw (h, own, c, unknown) (kept s _ v refl refl)
                | inr known ↦ elim (Bool-cases (code ==ℤ d.error_code)) [
                  | inr fine ↦ rw (h, own, c, known, fine) v
                  | inl failed ↦ elim (Result-cases msg.error_message) [
                    | inl (text, t) ↦ rw (h, own, c, known, failed, t) v
                    | inr (e, t) ↦ rw (h, own, c, known, failed, t) v
                  ]
                ]
              ]
      ]
    ]
  ]

  on_descriptor-Serves :
      (m : M) (s : DescriptorPoller) → Serving s → Serving (on_descriptor d session m s).1
  unfolding on_descriptor
  on_descriptor-Serves m s v = elim (Result-cases (d.as_descriptor m)) [
    | inr (e, h) ↦ rw h v
    | inl (msg, h) ↦
        elim (Bool-cases
          (session ==ℤ msg.control_session_id && s.correlation_id ==ℤ msg.correlation_id)) [
            | inr other ↦ rw (h, other) v
            | inl own ↦
                elim (Result-cases (
                  s.consumer (record msg {
                    control_session_id = session;
                    correlation_id = s.correlation_id;
                  }))) [
                    | inr (e, c) ↦ rw (h, own, c) (kept s _ v refl refl)
                    | inl (x, c) ↦ elim (Bool-cases (s.remaining_record_count -ℤ pos 1 ==ℤ pos 0)) [
                      | inl last ↦ rw (h, own, c, last) (kept s _ v refl refl)
                      | inr more ↦ rw (h, own, c, more) (kept s _ v refl refl)
                    ]
                  ]
          ]
  ]

  on_fragment-Serves :
      (m : M) (s : DescriptorPoller) → Serving s → Serving (on_fragment d session m s).1
  unfolding on_fragment
  on_fragment-Serves m s v = elim (Bool-cases (d.template_id m == d.response_template)) [
    | inl response ↦ rw response (on_response-Serves m s v)
    | inr other ↦ elim (Bool-cases (d.template_id m == d.descriptor_template)) [
      | inl descriptor ↦ rw (other, descriptor) (on_descriptor-Serves m s v)
      | inr unknown ↦ rw (other, unknown) v
    ]
  ]

  pub deliver-Serves :
      (ms : List M) (s : DescriptorPoller)
      → Serving s
      → Serving
          (deliver (on_fragment d session) ms 0 (record s { is_dispatch_complete = false })).object
  deliver-Serves ms s v =
      deliver-keeps (on_fragment d session) Serving on_fragment-Serves ms 0 _ (kept s _ v refl refl)
