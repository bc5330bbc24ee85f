-- ===== src/Stream/Terminal.antt =====
-- crates/tideline-server/src/stream.rs: how a stream ends.
use tideline.Base.{ℕ, ◌≡◌, refl, ◌∙◌, String, true, List, [], ◌∷◌, arith}
use tideline.Stream.{Stream, is_some, is_terminal, publish, complete, fail, touch}
use tideline.Stream.Buffer.{Op, publishes, completes, fails, touches, apply, apply_all}

-- Two streams that ended in the same way and at the same time.
pub record SameEnd (a b : Stream) : Type 0 where
  pub complete : b.inner.complete ≡ a.inner.complete
  pub error : b.inner.error ≡ a.inner.error
  pub completed_at : b.inner.completed_at ≡ a.inner.completed_at

SameEnd-trans : {a b c : Stream} → SameEnd a b → SameEnd b c → SameEnd a c
SameEnd-trans x y = record {
  complete = y.complete ∙ x.complete;
  error = y.error ∙ x.error;
  completed_at = y.completed_at ∙ x.completed_at;
}

complete-SameEnd : (s : Stream) (now : ℕ) → is_terminal s ≡ true → SameEnd s (complete s now)
unfolding complete is_terminal is_some
complete-SameEnd s now h = record {
  complete = ground arith;
  error = ground arith;
  completed_at = ground arith;
}

fail-SameEnd :
    (s : Stream) (now : ℕ) (message : String)
    → is_terminal s ≡ true
    → SameEnd s (fail s now message)
unfolding fail is_terminal is_some
fail-SameEnd s now message h = record {
  complete = ground arith;
  error = ground arith;
  completed_at = ground arith;
}

apply-SameEnd : (s : Stream) (o : Op) → is_terminal s ≡ true → SameEnd s (apply s o)
unfolding apply publish touch
apply-SameEnd s (publishes now text) h = record {
  complete = refl;
  error = refl;
  completed_at = refl;
}
apply-SameEnd s (completes now) h = complete-SameEnd s now h
apply-SameEnd s (fails now message) h = fail-SameEnd s now message h
apply-SameEnd s (touches now) h = record { complete = refl; error = refl; completed_at = refl }

SameEnd-is_terminal : (a b : Stream) → SameEnd a b → is_terminal a ≡ true → is_terminal b ≡ true
unfolding is_terminal
SameEnd-is_terminal a b e h = rw (e.complete, e.error) h

-- A stream that has ended, completed or failed, keeps its ending and the time of it, whatever is
-- published, completed, failed or touched later.
pub terminal_stays : (s : Stream) (os : List Op) → is_terminal s ≡ true → SameEnd s (apply_all s os)
unfolding apply_all
terminal_stays s [] h = record { complete = refl; error = refl; completed_at = refl }
terminal_stays s (o ∷ os) h =
    let e = apply-SameEnd s o h in
    SameEnd-trans e (terminal_stays (apply s o) os (SameEnd-is_terminal s (apply s o) e h))
