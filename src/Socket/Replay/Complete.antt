-- ===== src/Socket/Replay/Complete.antt =====
-- A replay sends the rows between the client's cursor and the version, each once and in order, or a
-- first part of them; it never runs out of fuel, and it ends by `ready` only when it has sent all.
use blackglass_server.Base.{
  ℕ, zero, suc, ◌≤◌, ◌<◌, ◌≡◌, refl, sym, ap, subst, ◌∙◌, Bool, true, false, ◌&&◌, List, ◌++◌, map,
  take, drop, length, arith, ltb, ltb→lt, take-drop, length-drop, take_short, length-map,
  map-append, nat_eq, text_eq,
}
use blackglass_server.Table.{select}
use blackglass_server.Database.{RevisionRow}
use blackglass_server.Revisions.{Revision, revision_row}
use blackglass_server.Socket.Replay.{Gate, send_page, last_uid, replay, replay_page_size}
use blackglass_server.Socket.Replay.Pages.{
  IsAscending, is_after, IsAscending-select, page_rest, each_is_after, select_nested,
}
use blackglass_server.Socket.Replay.Rounds.{IsReplayed, sends, round}

module _ (revs : List RevisionRow) (p : RevisionRow → Bool) (ascending : IsAscending revs)
    (gate : ℕ → Gate) (page : ℕ → ℕ → List Revision) (version : ℕ) where
  -- The rows that the client still lacks.
  abbrev missing : ℕ → List RevisionRow
  missing cursor = select (λ r. p r && is_after cursor r) revs

  -- What a round needs to know of its page.
  abbrev Fits : ℕ → ℕ → ℕ → List Revision → Type 0
  Fits fuel n cursor rows =
      let all = map revision_row (missing cursor) in
      let next =
        replay fuel gate page version (send_page gate (suc n) rows).0 (last_uid cursor rows) in
      ((rest : List Revision) × (all ≡ rows ++ rest))
      × (ltb (length rows) replay_page_size ≡ true → all ≡ rows)
      × (ltb (length rows) replay_page_size ≡ false
          → (rest : List Revision) × (all ≡ rows ++ rest)
            × IsReplayed gate (send_page gate (suc n) rows).0 rest version next)

  fits :
      (fuel n cursor : ℕ)
      → length (missing cursor) ≤ fuel
      → ((m c : ℕ)
          → length (missing c) < fuel
          → IsReplayed gate m
              (map revision_row (missing c))
              version
              (replay fuel gate page version m c))
      → Fits fuel n cursor (map revision_row (take replay_page_size (missing cursor)))
  fits fuel n cursor enough later =
      let ys = missing cursor in
      let rows = map revision_row (take replay_page_size ys) in
      let m = (send_page gate (suc n) rows).0 in
      let next = last_uid cursor rows in
      let rest = map revision_row (drop replay_page_size ys) in
      let whole : map revision_row ys ≡ rows ++ rest =
        ap (map revision_row) (sym (take-drop replay_page_size ys))
        ∙ map-append revision_row (take replay_page_size ys) (drop replay_page_size ys) in
      let counted = length-map revision_row (take replay_page_size ys) in
      (
        (rest, whole),
        λ short.
            ap (map revision_row)
              (sym (take_short replay_page_size ys (omega (arith, ltb→lt _ _ short, counted)))),
        λ long.
            let (le, left) =
              page_rest 15 cursor ys (IsAscending-select _ revs ascending)
                (each_is_after p cursor revs) long in
            let same : missing next ≡ drop replay_page_size ys =
              select_nested p cursor next revs le ∙ left in
            let shorter : length (missing next) < fuel =
              rw same (ground (arith, length-drop replay_page_size ys, counted, long, enough)) in
            (
              rest,
              whole,
              subst
                  (λ l.
                    IsReplayed gate m (map revision_row l) version
                      (replay fuel gate page version m next))
                  same (later m next shorter),
            ),
      )

  -- With more fuel than missing rows, whatever the checks find.
  pub replayed :
      ((n c : ℕ) → page n c ≡ map revision_row (take replay_page_size (missing c)))
      → (fuel n cursor : ℕ) → length (missing cursor) < fuel
      → IsReplayed gate n
          (map revision_row (missing cursor))
          version
          (replay fuel gate page version n cursor)
  unfolding replay
  replayed pages zero n cursor enough = absurd (omega arith)
  replayed pages (suc fuel) n cursor enough =
      let rows = page n cursor in
      let (split, short, long) =
        subst (Fits fuel n cursor) (sym (pages n cursor))
          (fits fuel n cursor (omega arith) (replayed pages fuel)) in
      round gate n (send_page gate (suc n) rows).0 (gate n) rows (send_page gate (suc n) rows).1
        (send_page gate (suc n) rows).2 (map revision_row (missing cursor)) _ _ version refl
        (sends gate (suc n) rows) split short long
