-- ===== src/Engine/Feed.antt =====
-- `VtEngine::feed` of lib.rs: the invariant of the engine, and two calls in a row.
use rill.Prelude.{ℕ, ◌≡◌, refl, ap, ◌∙◌, List, [], ◌∷◌, ◌++◌, Option, none, some}
use mathlib.Core.Option
use rill.Parser.State.{Action, Out}
use rill.Parser.Step.{then_out, feed as feed_parser}
use rill.Parser.Feed.{IsReady, feed_all, feed-append, then_feed}
use rill.Screen.State.{Screen}
use rill.Screen.Valid.{IsValid}
use rill.Screen.Dispatch.{perform, perform_all}
use rill.Engine.State.{VtEngine, driven, feed}

-- between two calls
pub record IsSound (e : VtEngine) : Type 0 where
  pub ready : IsReady e.parser
  pub shown : IsValid e.screen

-- the engine behind the input
abbrev pub fed : VtEngine → List ℕ → VtEngine
fed e bytes = driven e (feed_all e.parser bytes)

perform_all-append :
    (s : Screen) (xs ys : List Action)
    → perform_all s (xs ++ ys) ≡ perform_all (perform_all s xs) ys
unfolding perform_all
perform_all-append s [] ys = refl
perform_all-append s (x ∷ xs) ys = perform_all-append (perform s x) xs ys

-- a second call of `feed`, on the engine that the first one leaves
abbrev pub feed_then : Option VtEngine → List ℕ → Option VtEngine
feed_then none ys = none
feed_then (some e) ys = feed e ys

driven-then_out :
    (e : VtEngine) (xs : List Action) (o : Option Out)
    → Option.map (driven e) (then_out xs o)
      ≡ Option.map (λ (r : Out). driven (driven e (r.0, xs)) r) o
driven-then_out e xs none = refl
driven-then_out e xs (some (q, ys)) =
    ap (λ s. some (record { parser = q; screen = s })) (perform_all-append e.screen xs ys)

driven-then_feed :
    (e : VtEngine) (o : Option Out) (ys : List ℕ)
    → Option.map (driven e) (then_feed o ys) ≡ feed_then (Option.map (driven e) o) ys
unfolding feed
driven-then_feed e none ys = refl
driven-then_feed e (some (q, out)) ys = driven-then_out e out (feed_parser q ys)

-- Between two calls, in a build without overflow checks, it does not matter how the input is split:
-- feeding the parts one after the other leaves the engine, parser and screen, that feeding the
-- whole leaves.
pub feed-feed :
    (e : VtEngine) (xs ys : List ℕ) → IsSound e → feed e (xs ++ ys) ≡ feed_then (feed e xs) ys
unfolding feed
feed-feed e xs ys v =
    ap (Option.map (driven e)) (feed-append e.parser xs ys v.ready)
    ∙ driven-then_feed e (feed_parser e.parser xs) ys
