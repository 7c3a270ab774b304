-- ===== src/Worker/Queue/Expiry.antt =====
-- The reclaim removes exactly the leases whose deadline has passed.
use text.Mathlib.Text.{◌==◌ as str_eq}
use text.Mathlib.TextEquality.{eq_iff}
use Prim.Native.String.{String}
use ldgr.Prelude.{
  ℕ, ◌≤◌, ◌≡◌, refl, ap, sym, ◌∙◌, Bool, true, false, not, ◌||◌, none, List, [], ◌∷◌, arith, ltb,
  leb, if◌then◌else◌, All, Option-cases, Bool-cases, inl, inr,
}
use ldgr.Worker.Queue.{
  Task, Lease, InMemoryQueue, find_lease, drop_lease, retire_or_requeue, report_failure,
  expired_ids, reclaim, reclaim_expired,
}
use ldgr.Worker.Queue.Census.{leases, Keyed, IsSound, report_failure-IsSound}

-- `contains` of a list of ids.
unfoldable pub listed : String → List String → Bool
listed k [] = false
listed k (id ∷ ids) = str_eq k id || listed k ids

module _ {C H : Type 0} where
  unfoldable pub keep : (Lease C H → Bool) → List (Lease C H) → List (Lease C H)
  keep p [] = []
  keep p (l ∷ ls) = let rest = keep p ls in if p l then l ∷ rest else rest

  abbrev Other : String → Lease C H → Type 0
  Other k l = str_eq l.key k ≡ false

  leases_zero : (k : String) (ls : List (Lease C H)) → Keyed ls → leases k ls ≡ 0 → All (Other k) ls
  leases_zero k [] h e = tt
  leases_zero k (l ∷ ls) h e =
      let other : str_eq l.task.id k ≡ false = ground arith in
      (rw h.0 other, leases_zero k ls h.1 (ground arith))

  keep-cong :
      (P : Lease C H → Type 0) (p r : Lease C H → Bool) (ls : List (Lease C H))
      → All P ls
      → ((l : Lease C H) → P l → p l ≡ r l)
      → keep p ls ≡ keep r ls
  unfolding keep
  keep-cong P p r [] a h = refl
  keep-cong P p r (l ∷ ls) a h = rw (h l a.0, keep-cong P p r ls a.1 h)

  keep-all :
      (p : Lease C H → Bool) (ls : List (Lease C H)) → All (λ l. p l ≡ true) ls → keep p ls ≡ ls
  unfolding keep
  keep-all p [] a = refl
  keep-all p (l ∷ ls) a = rw (a.0, keep-all p ls a.1)

  keep-keep :
      (p r : Lease C H → Bool) (ls : List (Lease C H))
      → keep p (keep r ls) ≡ keep (λ l. if r l then p l else false) ls
  unfolding keep
  keep-keep p r [] = refl
  keep-keep p r (l ∷ ls) = elim (Bool-cases (r l)) [
    | inl kept ↦ rw (kept, keep, keep-keep p r ls)
    | inr gone ↦ rw (gone, keep-keep p r ls)
  ]

  All-not :
      (k : String) (ls : List (Lease C H))
      → All (Other k) ls
      → All (λ l. not (str_eq l.key k) ≡ true) ls
  All-not k [] a = tt
  All-not k (l ∷ ls) a = (ap not a.0, All-not k ls a.1)

  All-true : (ls : List (Lease C H)) → All (λ l. ◌≡◌ {A = Bool} true true) ls
  All-true [] = tt
  All-true (l ∷ ls) = (refl, All-true ls)

  All-unit : (ls : List (Lease C H)) → All (λ l. Unit {0}) ls
  All-unit [] = tt
  All-unit (l ∷ ls) = (tt, All-unit ls)

  abbrev Distinct : List (Lease C H) → Type 0
  Distinct ls = Keyed ls × ((id : String) → leases id ls ≤ 1)

  Distinct-tail : (l : Lease C H) (ls : List (Lease C H)) → Distinct (l ∷ ls) → Distinct ls
  Distinct-tail l ls d = (d.0.1, λ id. omega (arith, d.1 id))

  -- The other leases stand under other ids.
  Distinct-Other :
      (l : Lease C H) (ls : List (Lease C H)) → Distinct (l ∷ ls) → All (Other l.key) ls
  Distinct-Other l ls d =
      let self : str_eq l.task.id l.key ≡ true = (eq_iff l.task.id l.key).1 (sym d.0.0) in
      leases_zero l.key ls d.0.1 (ground (arith, d.1 l.key))

  drop_lease-keep :
      (k : String) (ls : List (Lease C H))
      → Distinct ls
      → drop_lease k ls ≡ keep (λ l. not (str_eq l.key k)) ls
  unfolding drop_lease keep
  drop_lease-keep k [] d = refl
  drop_lease-keep k (l ∷ ls) d = elim (Bool-cases (str_eq l.key k)) [
    | inl here ↦
        (let same : l.key ≡ k = (eq_iff l.key k).0 here in
          rw here (
            sym (
              keep-all (λ l'. not (str_eq l'.key k)) ls
                (All-not k ls (rw same at (Distinct-Other l ls d))))))
    | inr other ↦ rw (other, drop_lease-keep k ls (Distinct-tail l ls d))
  ]

  retire_or_requeue_leased :
      (t : Task C H) (q : InMemoryQueue C H) → (retire_or_requeue t q).0.leased ≡ q.leased
  unfolding retire_or_requeue
  retire_or_requeue_leased t q = ground arith

  drop_lease-none :
      (k : String) (ls : List (Lease C H)) → find_lease k ls ≡ none → drop_lease k ls ≡ ls
  unfolding drop_lease find_lease
  drop_lease-none k [] e = refl
  drop_lease-none k (l ∷ ls) e = ground (arith, drop_lease-none k ls)

  report_failure_leased :
      (k : String) (q : InMemoryQueue C H) → (report_failure k q).0.leased ≡ drop_lease k q.leased
  unfolding report_failure
  report_failure_leased k q = elim (Option-cases (find_lease k q.leased)) [
    | inl e ↦ rw (e, report_failure) (sym (drop_lease-none k q.leased e))
    | inr (t, e) ↦
        rw (e, report_failure)
          (retire_or_requeue_leased t (record q { leased = drop_lease k q.leased }))
  ]

  IsSound-Distinct : (q : InMemoryQueue C H) → IsSound q → Distinct q.leased
  IsSound-Distinct q s = (s.keyed, λ id. omega (arith, s.unique id))

  reclaim_leased :
      (ids : List String) (q : InMemoryQueue C H)
      → IsSound q
      → (reclaim ids q).leased ≡ keep (λ l. not (listed l.key ids)) q.leased
  unfolding reclaim listed
  reclaim_leased [] q s = sym (keep-all (λ l. true) q.leased (All-true q.leased))
  reclaim_leased (id ∷ ids) q s =
      let ls = q.leased in
      let kept = drop_lease-keep id ls (IsSound-Distinct q s) in
      reclaim_leased ids (report_failure id q).0 (report_failure-IsSound id q s)
      ∙ ap (keep (λ l. not (listed l.key ids))) (report_failure_leased id q ∙ kept)
      ∙ keep-keep (λ l. not (listed l.key ids)) (λ l. not (str_eq l.key id)) ls
      ∙ keep-cong (λ l. Unit {0}) _ _ ls (All-unit ls) (λ l u. ground arith)

  listed_absent :
      (k : String) (now : ℕ) (ls : List (Lease C H))
      → All (Other k) ls
      → listed k (expired_ids now ls) ≡ false
  unfolding listed expired_ids
  listed_absent k now [] a = refl
  listed_absent k now (l ∷ ls) a =
      ground (arith, a.0, listed_absent k now ls a.1, eq_iff l.key k, eq_iff k l.key)

  expired_ids_over :
      (now : ℕ) (l : Lease C H) (ls : List (Lease C H))
      → leb l.deadline now ≡ true
      → expired_ids now (l ∷ ls) ≡ l.key ∷ expired_ids now ls
  unfolding expired_ids
  expired_ids_over now l ls e = rw e

  expired_ids_left :
      (now : ℕ) (l : Lease C H) (ls : List (Lease C H))
      → leb l.deadline now ≡ false
      → expired_ids now (l ∷ ls) ≡ expired_ids now ls
  unfolding expired_ids
  expired_ids_left now l ls e = rw e

  expired_ids-keep :
      (now : ℕ) (ls : List (Lease C H))
      → Distinct ls
      → keep (λ l. not (listed l.key (expired_ids now ls))) ls ≡ keep (λ l. ltb now l.deadline) ls
  unfolding keep listed
  expired_ids-keep now [] d = refl
  expired_ids-keep now (l ∷ ls) d =
      let others = Distinct-Other l ls d in
      let rest = expired_ids-keep now ls (Distinct-tail l ls d) in
      elim (Bool-cases (leb l.deadline now)) [
        | inl over ↦
            (let past : ltb now l.deadline ≡ false = ground arith in
              let self : str_eq l.key l.key ≡ true = (eq_iff l.key l.key).1 refl in
              rw (expired_ids_over now l ls over, past, self)
                (keep-cong (Other l.key) _ (λ l'. not (listed l'.key (expired_ids now ls))) ls
                    others (λ l' o. rw (expired_ids_over now l ls over, o))
                  ∙ rest))
        | inr left ↦
            (let ahead : ltb now l.deadline ≡ true = ground arith in
              rw (expired_ids_left now l ls left, ahead, listed_absent l.key now ls others)
                (ap (λ (ls' : List (Lease C H)). l ∷ ls')
                  (keep-cong (Other l.key) _ (λ l'. not (listed l'.key (expired_ids now ls))) ls
                      others (λ l' o. rw (expired_ids_left now l ls left))
                    ∙ rest)))
      ]

  -- On a sound queue, the reclaim leaves exactly the leases whose deadline is after the clock, in their
  -- order and unchanged.
  pub reclaim_expired-keep :
      (now : ℕ) (q : InMemoryQueue C H)
      → IsSound q
      → (reclaim_expired now q).leased ≡ keep (λ l. ltb now l.deadline) q.leased
  unfolding reclaim_expired
  reclaim_expired-keep now q s =
      reclaim_leased (expired_ids now q.leased) q s
      ∙ expired_ids-keep now q.leased (IsSound-Distinct q s)
