-- ===== src/Tests/Sources.antt =====
-- A source that signs in and opens a websocket, and the limits it meets.
use blackglass_server.Base.{ℕ, zero, suc, ◌≡◌, refl, true, false, [], nat_eq}
use blackglass_server.Table.{select}
use blackglass_server.Limits.Map.{get, put}
use blackglass_server.Limits.Source.{
  Entries, admit_signin, admit_websocket, drop_connection, entry_of, make_room, pop_expired,
}
use blackglass_server.Limits.Source.Bounds.{IsBounded}
use blackglass_server.Limits.Source.Steps.{Step, Reachable, sources-IsBounded}

abbrev signed : Entries
signed = (admit_signin 7 100 []).1

abbrev after_opening : Entries
after_opening = (admit_websocket 7 200 signed).1

-- Both are admitted, and the websocket closes.
run : Reachable ([], drop_connection 7 300 after_opening)
unfolding admit_signin admit_websocket entry_of make_room get put select
run =
    Reachable.step
      (Reachable.step (Reachable.step (Reachable.start _ refl) (Step.signin 7 100))
        (Step.websocket 7 200))
      (Step.close [] [] 7 300 _ _ refl refl)

sources_example : IsBounded [] (drop_connection 7 300 after_opening)
sources_example = sources-IsBounded ([], drop_connection 7 300 after_opening) run

abbrev tries : ℕ → Entries → Entries
tries zero es = es
tries (suc n) es = (admit_signin 7 (suc n) (tries n es)).1

-- The seventh attempt within a minute is refused, and one a minute later is not.
seventh : (admit_signin 7 10 (tries 6 [])).0 ≡ false
unfolding admit_signin entry_of make_room get put select pop_expired
seventh = refl

later : (admit_signin 7 60006 (tries 6 [])).0 ≡ true
unfolding admit_signin entry_of make_room get put select pop_expired
later = refl
