-- ===== src/Work.antt =====
-- internal/work/work.go and internal/run/run.go: limits of the texts of a Work, and their
-- normal forms. `bounded` is the test that `NormalizeGoal`, `NormalizeIdempotencyKey` and the
-- functions of the same kind in internal/conversation share.
mod Normal
unfoldable pub use Normal.*
use carry.Prelude.{refl, ◌≡◌, [], ◌∷◌}
use carry.Result.{ok, err, invalid_goal, invalid_update}
use carry.Text.{codes, trim_space, valid_text}

padded_goal : normalize_goal (codes "  ship it\n") ≡ ok (codes "ship it")
unfolding normalize_goal trim_space valid_text
padded_goal = refl

blank_goal : normalize_goal (0xC2 ∷ 0xA0 ∷ []) ≡ err invalid_goal
unfolding normalize_goal trim_space valid_text
blank_goal = refl

no_next_step : validate_understanding_update (codes "done") (codes " ") ≡ err invalid_update
unfolding validate_understanding_update trim_space valid_text
no_next_step = refl
