-- ===== src/Conversation/Context.antt =====
-- `FixedContextSuffix`: the newest messages that a reply is made from. The loop walks back over the
-- messages, which are given here with the newest first.
use carry.Prelude.{
  ℕ, suc, ◌+◌, ◌*◌, Bool, true, false, not, ◌&&◌, List, [], ◌∷◌, reverse, ltb, leb, if◌then◌else◌,
  length,
}
use carry.Result.{Result, ok, err, ◌>>=◌, invalid_context}
use carry.Text.{Text, is_empty, valid_text}
use carry.Conversation.Message.{max_text_bytes}

abbrev pub max_context_messages : ℕ
max_context_messages = 32

abbrev pub max_context_text_bytes : ℕ
max_context_text_bytes = 256 * 1024

-- `Author`: one of the two constants, or another string.
pub data Author : Type 0 where
  author_member author_carry author_other : Author

abbrev pub is_known : Author → Bool
is_known author_other = false
is_known _ = true

-- `ContextMessage`.
pub record ContextMessage : Type 0 where
  pub author : Author
  pub text : Text

-- The test of the loop on each message.
abbrev pub fits_context : ContextMessage → Bool
fits_context m =
    is_known m.author
    && not (is_empty m.text)
    && leb (length m.text) max_text_bytes
    && valid_text m.text

-- The loop: how many messages are taken, their bytes, the messages, and the older ones.
unfoldable pub take_newest :
    ℕ → ℕ → List ContextMessage → List ContextMessage → Result (List ContextMessage)
take_newest taken text_bytes fixed [] = ok fixed
take_newest taken text_bytes fixed (m ∷ older) =
    let next = text_bytes + length m.text in
    let rest = take_newest (suc taken) next (m ∷ fixed) older in
    if leb max_context_messages taken
    then ok fixed
    else if not (fits_context m)
    then err invalid_context
    else if ltb max_context_text_bytes next
    then ok fixed
    else rest

abbrev pub nonempty : List ContextMessage → Result (List ContextMessage)
nonempty [] = err invalid_context
nonempty (m ∷ ms) = ok (m ∷ ms)

-- `FixedContextSuffix`.
unfoldable pub fixed_context_suffix : List ContextMessage → Result (List ContextMessage)
fixed_context_suffix messages = take_newest 0 0 [] (reverse messages) >>= nonempty
