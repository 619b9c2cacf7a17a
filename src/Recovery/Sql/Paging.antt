-- ===== src/Recovery/Sql/Paging.antt =====
-- fog/sql_recovery_db/src/lib.rs, `search_user_events`: asking again from the id that it gave.
use fog.Prelude.{
  ℕ, ◌≤◌, false, List, [], ◌∷◌, ◌≡◌, refl, sym, ap, subst, ltb, ltb→le, ltb→lt, Bool-cases, inl,
  inr, arith, ◌==◌, ==→eq,
}
use fog.Prelude.Result.{Result, ok, err, ◌>>=◌}
use fog.Prelude.Queries.{any, bigint, bigint_lt, bigint_max, filter, sort_by}
use fog.Prelude.Rows.{filter-empty}
use fog.Recovery.Sql.Events.{
  FogUserEvent, max_id, i64_max, collect, event_of_row, search_user_events,
}
use fog.Recovery.Sql.Tables.{Error, UserEvent, Db}

bigint_max-left : (a b : ℕ) → bigint a ≤ bigint (bigint_max a b)
bigint_max-left a b = elim (Bool-cases (bigint_lt a b)) [
  | inl e ↦ rw e (omega (arith, ltb→lt (bigint a) (bigint b) e))
  | inr e ↦ rw e (omega arith)
]

bigint_max-right : (a b : ℕ) → bigint b ≤ bigint (bigint_max a b)
bigint_max-right a b = elim (Bool-cases (bigint_lt a b)) [
  | inl e ↦ rw e (omega arith)
  | inr e ↦ rw e (ltb→le (bigint a) (bigint b) e)
]

max_id-start : (m : ℕ) (rows : List UserEvent) → bigint m ≤ bigint (max_id m rows)
unfolding max_id
max_id-start m [] = omega arith
max_id-start m (r ∷ rows) =
    omega (arith, bigint_max-left m r.id, max_id-start (bigint_max m r.id) rows)

le-ltb : (a b : ℕ) → b ≤ a → ltb a b ≡ false
le-ltb a b h = ground arith

-- No row is newer than the largest of the ids after `start`.
none_newer :
    (start m k : ℕ) (rows : List UserEvent)
    → bigint start ≤ bigint m
    → bigint (max_id m (filter (λ r. bigint_lt start r.id) rows)) ≤ bigint k
    → any (λ r. bigint_lt k r.id) rows ≡ false
unfolding max_id filter any
none_newer start m k [] h le = refl
none_newer start m k (r ∷ rows) h le = elim (Bool-cases (bigint_lt start r.id)) [
  | inl e ↦
      let l : bigint (max_id (bigint_max m r.id) (filter (λ r'. bigint_lt start r'.id) rows))
          ≤ bigint k =
        rw e at le in
      rw
        (
          le-ltb (bigint k) (bigint r.id) (
              omega (
                arith,
                bigint_max-right m r.id,
                max_id-start (bigint_max m r.id) (filter (λ r'. bigint_lt start r'.id) rows),
                l,
              )),
          none_newer start (bigint_max m r.id) k rows (omega (arith, h, bigint_max-left m r.id)) l,
        )
        refl
  | inr e ↦
      let l : bigint (max_id m (filter (λ r'. bigint_lt start r'.id) rows)) ≤ bigint k =
        rw e at le in
      rw
        (
          le-ltb (bigint k) (bigint r.id) (
              omega (
                arith,
                h,
                ltb→le (bigint start) (bigint r.id) e,
                max_id-start m (filter (λ r'. bigint_lt start r'.id) rows),
                l,
              )),
          none_newer start m k rows h l,
        )
        refl
]

-- The id of an answer does not depend on how the events were read.
answer-next :
    {X : Type 0} (m : Result Error X) (f : X → List FogUserEvent) (n : ℕ)
    (events : List FogUserEvent) (next : ℕ)
    → ◌>>=◌ {B = List FogUserEvent × ℕ} m (λ x. ok (f x, n)) ≡ ok (events, next)
    → n ≡ next
answer-next (ok x) f n events next h = cc
answer-next (err e) f n events next h = cc

drained :
    (next : ℕ) (db : Db)
    → any (λ r. bigint_lt next r.id) db.user_events ≡ false
    → search_user_events next db ≡ ok ([], next)
unfolding search_user_events max_id collect sort_by
drained next db h = elim (Bool-cases (next == i64_max)) [
  | inl e ↦ rw e (ap (λ n. ok ([], n)) (sym (==→eq next i64_max e)))
  | inr e ↦ rw (e, filter-empty (λ r. bigint_lt next r.id) db.user_events h) refl
]

-- When `search_user_events` answers with events and an id, asking again from that id finds no
-- further event and gives the same id.
pub search_user_events-Drained :
    (start : ℕ) (db : Db) (events : List FogUserEvent) (next : ℕ)
    → search_user_events start db ≡ ok (events, next)
    → search_user_events next db ≡ ok ([], next)
unfolding search_user_events
search_user_events-Drained start db events next h = elim (Bool-cases (start == i64_max)) [
  | inl e ↦
      subst (λ n. search_user_events n db ≡ ok ([], n))
        (answer-next (ok (tt {0})) (λ _. []) i64_max events next (rw e at h)) refl
  | inr e ↦
      let n : max_id start (filter (λ r. bigint_lt start r.id) db.user_events) ≡ next =
        answer-next (collect (event_of_row db) (filter (λ r. bigint_lt start r.id) db.user_events))
          _ _ events next (rw e at h) in
      drained next db (
        none_newer start start next db.user_events (omega arith) (
          subst
            (λ k.
              bigint (max_id start (filter (λ r. bigint_lt start r.id) db.user_events)) ≤ bigint k)
            n (omega arith)))
]
