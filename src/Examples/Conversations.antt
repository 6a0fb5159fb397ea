-- ===== src/Examples/Conversations.antt =====
-- The theorems on private messages at concrete inputs.
use carry.Prelude.{List, [], ◌∷◌, some, true, ◌≡◌, refl, arith}
use carry.Result.{ok}
use carry.Text.{codes, trim_space, valid_text}
use carry.Digest.{encode_fields}
use carry.Work.{IsNormal, normalize_goal}
use carry.Conversation.Message.{
  ReplyCandidate, max_text_bytes, reply_fields, normalize_text, normalize_reply_candidate,
  normalize_reply_candidate_idem, encode_fields-reply,
}
use carry.Conversation.Context.{
  ContextMessage, author_member, author_carry, take_newest, fixed_context_suffix,
}
use carry.Conversation.Suffix.{Newest, fixed_context_suffix-Newest}
use carry.Conversation.Refix.{fixed_context_suffix_idem, fixed_context_suffix-total}
use carry.Examples.Scene.{hash}

abbrev pub candidate : ReplyCandidate
candidate = record { reply = codes "on it "; delegation_goal = some (codes " ship it") }

abbrev pub tidy : ReplyCandidate
tidy = record { reply = codes "on it"; delegation_goal = some (codes "ship it") }

tidied :
    normalize_reply_candidate hash (codes "m") candidate
    ≡ ok (tidy, hash (encode_fields (reply_fields (codes "m") tidy)))
unfolding normalize_reply_candidate normalize_text normalize_goal trim_space valid_text
tidied = refl

normalize_reply_candidate_idem_example :
    IsNormal max_text_bytes (codes "on it")
    × (normalize_reply_candidate hash (codes "m") tidy
        ≡ ok (tidy, hash (encode_fields (reply_fields (codes "m") tidy))))
normalize_reply_candidate_idem_example =
    normalize_reply_candidate_idem hash (codes "m") candidate tidied

encode_fields-reply_example :
    (codes "m" ≡ codes "m")
    × (tidy.reply ≡ tidy.reply)
    × (tidy.delegation_goal ≡ tidy.delegation_goal)
encode_fields-reply_example =
    encode_fields-reply (codes "m") (codes "m") tidy tidy
      (omega arith, (omega arith, (omega arith, (omega arith, tt))))
      (omega arith, (omega arith, (omega arith, (omega arith, tt)))) refl

abbrev talk : List ContextMessage
talk =
    record { author = author_member; text = codes "hello" }
    ∷ record { author = author_carry; text = codes "hi" }
    ∷ []

talk_fixed : fixed_context_suffix talk ≡ ok talk
unfolding fixed_context_suffix take_newest valid_text
talk_fixed = refl

fixed_context_suffix-Newest_example : Newest talk talk
fixed_context_suffix-Newest_example = fixed_context_suffix-Newest talk talk_fixed

fixed_context_suffix_idem_example : fixed_context_suffix talk ≡ ok talk
fixed_context_suffix_idem_example = fixed_context_suffix_idem talk talk_fixed

talk_valid : valid_text (codes "hello") ≡ true
unfolding valid_text
talk_valid = refl

answer_valid : valid_text (codes "hi") ≡ true
unfolding valid_text
answer_valid = refl

fixed_context_suffix-total_example :
    (fixed : List ContextMessage) × (fixed_context_suffix talk ≡ ok fixed)
fixed_context_suffix-total_example =
    fixed_context_suffix-total talk (omega arith) (talk_valid, (answer_valid, tt))
