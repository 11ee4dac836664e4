-- ===== src/Window/Tests.antt =====
-- Runs of the window search, and the theorems at concrete inputs.
use open_htap_stack.Prelude.{
  ◌+◌, ◌≡◌, refl, true, false, none, some, [], ◌∷◌, ◌==◌, All, arith, if◌then◌else◌,
}
use open_htap_stack.Window.Settled.{at, Replies, answers, short, consumed, sink_consumed_past}
use open_htap_stack.Window.Progress.{Log, Answered, IsLateBy, NothingLeft, settled_sound}
use open_htap_stack.Window.Search.{Answer, get_window}
use open_htap_stack.Window.Claims.{IsTrue, get_window-IsTrue}

-- two partitions of ten records each, one a second, of which each ninth is stamped late
abbrev log : Log
log = record { end = λ p. 10; stamp = λ p k. if k == 8 then 970 else 1000 + k }

-- about the instant 1004; the sink has read 7 and 5 records
abbrev replies : Replies
replies = record {
  committed = λ p. if p == 0 then at 7 else at 5;
  first_beyond = λ p. some 4;
  ends = λ p. some 10;
}

-- about an instant past every record, which the sink has not reached
abbrev behind : Replies
behind = record replies { first_beyond = λ p. none }

documented : Answered log 1004 replies
documented = record { first = λ p o h. ground arith; ended = λ p e h. ground arith }

log-IsLateBy : IsLateBy 60 log
unfolding IsLateBy
log-IsLateBy = λ p k l le. ground arith

passes : sink_consumed_past (answers (some (0 ∷ 1 ∷ [])) replies) ≡ (true, consumed 2)
unfolding sink_consumed_past
passes = refl

falls_short : sink_consumed_past (answers (some (0 ∷ 1 ∷ [])) behind) ≡ (false, short 2 2 8 (1, 5))
unfolding sink_consumed_past
falls_short = refl

window : Answer
unfolding get_window
window =
    get_window 15 16 (λ b. if b == 7200 then some true else none)
      (λ target. answers (some (0 ∷ [])) replies) 10000

window_found : (window.bucket ≡ 7200) × (window.closed ≡ true) × (window.current ≡ 9900)
unfolding window
window_found = (refl, refl, refl)

settled_sound_example : All (NothingLeft 60 log 1004 replies) (0 ∷ 1 ∷ [])
unfolding sink_consumed_past
settled_sound_example = settled_sound 60 log 1004 0 (1 ∷ []) replies documented log-IsLateBy refl

get_window-IsTrue_example :
    IsTrue
      (λ b. some true)
      (λ target. answers (some (0 ∷ [])) replies)
      10000
      (get_window 15 16 (λ b. some true) (λ target. answers (some (0 ∷ [])) replies) 10000)
get_window-IsTrue_example =
    get_window-IsTrue 15 16 (λ b. some true) (λ target. answers (some (0 ∷ [])) replies) 10000
      (omega arith)
