-- ===== src/AeronArchive/PollTests.antt =====
-- Waits for the archive: a stream of replies, and silence.
use aeron_archive_client.Prelude.{
  ℕ, zero, suc, Option, none, some, ◌≡◌, ◌⊎◌, refl, List, [], ◌∷◌, arith,
}
use aeron_archive_client.Prelude.Int.{ℤ, pos}
use aeron_archive_client.Prelude.Result.{Result, ok, awaiting_response}
use aeron_archive_client.Codecs.{ControlResponse}
use aeron_archive_client.Codecs.Sample.{
  plain_decoders, Message, response_message, descriptor_message, found_response, a_descriptor,
}
use aeron_archive_client.AeronArchive.Polling.{poll_for_response, poll_for_descriptors}
use aeron_archive_client.AeronArchive.Sample.{plain_client, with_inbox}
use aeron_archive_client.Aeron.Sample.{inbox-Flows, inbox-Streams, inbox-Finite}
use aeron_archive_client.AeronArchive.Reading.{Reply}
use aeron_archive_client.AeronArchive.Replies.{answer_of, poll_for_response-answer_of}
use aeron_archive_client.AeronArchive.Timeouts.{GaveUp}
use aeron_archive_client.Aeron.Finite.{Finite-Silence}
use aeron_archive_client.AeronArchive.Concluded.{poll_for_response-Concluded}
use aeron_archive_client.AeronArchive.Finished.{Ended, poll_for_descriptors-Ended}
use aeron_archive_client.RecordingDescriptorPoller.Complete.{
  Describes, DescribeAll, describe_last, describe_next,
}
use aeron_archive_client.AeronArchive.Lists.{IsComplete, poll_for_descriptors-IsComplete}

-- The same response for the session 4.
abbrev foreign_response : ControlResponse
foreign_response = record found_response { control_session_id = pos 4 }

-- A response to the request 6, for a recording 4.
abbrev earlier_response : ControlResponse
earlier_response = record found_response { correlation_id = pos 6; relevant_id = pos 4 }

-- A descriptor, a response of another session, a response to another request, and at last the response
-- to the request.
abbrev mixed : List Message
mixed =
    descriptor_message a_descriptor
    ∷ response_message foreign_response
    ∷ response_message earlier_response
    ∷ response_message found_response
    ∷ []

abbrev mixed_replies : List (Option Reply)
mixed_replies =
    none
    ∷ some (record { msg = foreign_response; code = pos 0; text = [] })
    ∷ some (record { msg = earlier_response; code = pos 0; text = [] })
    ∷ some (record { msg = found_response; code = pos 0; text = [] })
    ∷ []

mixed_answer : answer_of plain_client (pos 7) mixed_replies ≡ some (ok (pos 5_000_000_000))
unfolding answer_of
mixed_answer = refl

poll_for_response-answer_of_example :
    (poll_for_response plain_client 5 (pos 7) (with_inbox mixed)).0 ≡ ok (pos 5_000_000_000)
poll_for_response-answer_of_example =
    poll_for_response-answer_of plain_client inbox-Streams mixed mixed_replies 5 (pos 7)
      (with_inbox mixed) (ok (pos 5_000_000_000))
      (
        (omega arith, refl),
        (
          (refl, refl, refl, λ e. refl),
          ((refl, refl, refl, λ e. refl), ((refl, refl, refl, λ e. refl), tt)),
        ),
      )
      ([], refl) mixed_answer (omega arith)

-- A descriptor waits where two are asked for.
poll_for_descriptors-Ended_example :
    Ended plain_client inbox-Finite
      (descriptor_message a_descriptor ∷ [])
      (record { correlation_id = pos 7; record_count = pos 2; consumer = λ r. ok tt })
      100
      (poll_for_descriptors plain_client 104
        (pos 7)
        (pos 2)
        (λ r. ok tt)
        (with_inbox (descriptor_message a_descriptor ∷ [])))
poll_for_descriptors-Ended_example =
    poll_for_descriptors-Ended plain_client inbox-Finite 104 (pos 7) (pos 2) (λ r. ok tt)
      (with_inbox (descriptor_message a_descriptor ∷ [])) (omega arith)

-- A response of another session decides nothing.
abbrev passed_over : List Message
passed_over = response_message foreign_response ∷ []

abbrev passed_over_replies : List (Option Reply)
passed_over_replies = some (record { msg = foreign_response; code = pos 0; text = [] }) ∷ []

poll_for_response-Concluded_example :
    let r = poll_for_response plain_client 104 (pos 7) (with_inbox passed_over) in
    ((x : Result ℤ) × (answer_of plain_client (pos 7) passed_over_replies ≡ some x) × (r.0 ≡ x))
    ⊎ ((answer_of plain_client (pos 7) passed_over_replies ≡ none)
        × GaveUp plain_client (Finite-Silence inbox-Finite) (awaiting_response (pos 7)) 100 r)
poll_for_response-Concluded_example =
    poll_for_response-Concluded plain_client inbox-Finite passed_over passed_over_replies 104
      (pos 7) (with_inbox passed_over) ((refl, refl, refl, λ e. refl), tt) refl (omega arith)

-- Eleven messages, more than one poll takes.
abbrev repeat : {A : Type 0} → ℕ → A → List A
repeat zero x = []
repeat (suc n) x = x ∷ repeat n x

a_descriptor-Describes :
    Describes plain_decoders
      (pos 1)
      (pos 7)
      (λ r. ok tt)
      (descriptor_message a_descriptor)
      a_descriptor
a_descriptor-Describes = record {
  not_response = omega arith;
  template = refl;
  decoded = refl;
  own = refl;
  correlated = refl;
  taken = refl;
}

repeat-DescribeAll :
    (n : ℕ)
    → DescribeAll plain_decoders
        (pos 1)
        (pos 7)
        (λ r. ok tt)
        (repeat (suc n) (descriptor_message a_descriptor))
        (repeat (suc n) a_descriptor)
repeat-DescribeAll zero = describe_last a_descriptor-Describes
repeat-DescribeAll (suc n) = describe_next a_descriptor-Describes (repeat-DescribeAll n)

poll_for_descriptors-IsComplete_example :
    IsComplete plain_client inbox-Flows
      (pos 7)
      (λ r. ok tt)
      11
      (repeat 11 a_descriptor)
      (poll_for_descriptors plain_client 11
        (pos 7)
        (pos 11)
        (λ r. ok tt)
        (with_inbox (repeat 11 (descriptor_message a_descriptor))))
poll_for_descriptors-IsComplete_example =
    poll_for_descriptors-IsComplete plain_client inbox-Flows (pos 7) (λ r. ok tt) 11
      (with_inbox (repeat 11 (descriptor_message a_descriptor))) a_descriptor
      (repeat 10 a_descriptor) (repeat-DescribeAll 10) (omega arith)
