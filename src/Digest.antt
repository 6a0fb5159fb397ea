-- ===== src/Digest.antt =====
-- `digestFields` and `writeDigestField` of internal/work/work.go and internal/conversation/
-- conversation.go, and `appendDigestPart` of internal/machine/agent_presence.go: each field is
-- written behind its length, as eight bytes with the highest first. The hash of the result
-- (crypto/sha256) is an argument wherever a digest is compared.
mod Injective
unfoldable pub use Injective.*
use carry.Prelude.{[], ◌≡◌, refl, ◌∷◌}
use carry.Text.{Text, codes}

two_fields :
    encode_fields (codes "ab" ∷ codes "c" ∷ [])
    ≡ 0 ∷ 0 ∷ 0 ∷ 0 ∷ 0 ∷ 0 ∷ 0 ∷ 2 ∷ 97 ∷ 98 ∷ 0 ∷ 0 ∷ 0 ∷ 0 ∷ 0 ∷ 0 ∷ 0 ∷ 1 ∷ 99 ∷ []
unfolding encode_fields
two_fields = refl
