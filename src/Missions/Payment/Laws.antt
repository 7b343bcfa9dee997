-- ===== src/Missions/Payment/Laws.antt =====
-- What a hold, a release and a reversal do to the payment of a mission.
use Prim.Native.String.{String}
use logestic.Prelude.{
  ℕ, ◌-◌, ◌≤◌, false, ◌||◌, none, some, ◌≡◌, ◌≢◌, refl, ◌∙◌, arith, Option-cases, inl, inr,
}
use logestic.Prelude.Table.{find, update, find-update_self, find-update_ne}
use logestic.Fsm.{settled, status_eq}
use logestic.Store.{ok}
use logestic.Store.Tables.{Db, Mission, PaymentState, distributed, held, failed}
use logestic.Env.{Env}
use logestic.Missions.{apply_patch, payment_patch, get_mission_by_id, update_mission}
use logestic.Missions.Payment.{
  hold_mission_payment, release_mission_payment, reverse_mission_payment, is_settled,
  window_expired,
}

-- A database in which nothing but the payment of the mission `i` differs, with its logs.
pub record OnlyPayment (i : ℕ) (p : PaymentState) (s s' : Db) : Type 0 where
  pub missions : s'.missions ≡ update i (apply_patch (payment_patch p)) s.missions
  pub tickets : s'.tickets ≡ s.tickets
  pub transactions : s'.transactions ≡ s.transactions
  pub pools : s'.pools ≡ s.pools

hold_writes :
    (i : ℕ) (reason : String) (user : ℕ) (s : Db) (m : Mission)
    → find i s.missions ≡ some m
    → m.payment_state ≢ PaymentState.settled
    → ((hold_mission_payment i reason user s).0 ≡ ok (apply_patch (payment_patch held) m))
      × OnlyPayment i held s (hold_mission_payment i reason user s).1
unfolding hold_mission_payment get_mission_by_id update_mission
hold_writes i reason user s m found unsettled = (ground arith, ground arith)

module _ (env : Env) (i : ℕ) (reason : String) (user : ℕ) (s : Db) (m m' : Mission)
    (found : find i s.missions ≡ some m)
    (done : (reverse_mission_payment env i reason user s).0 ≡ ok m') where
  reverse_unsettled : (status_eq m.status settled || is_settled m.payment_state) ≡ false
  unfolding reverse_mission_payment get_mission_by_id update_mission
  reverse_unsettled = ground arith

  reverse_verified : m.verified_at ≢ none
  unfolding reverse_mission_payment get_mission_by_id update_mission
  reverse_verified e = ground arith

  module _ (at : ℕ) (verified : m.verified_at ≡ some at) where
    reverse_configured : env.reverse_window m.mine_id ≢ none
    unfolding reverse_mission_payment get_mission_by_id update_mission
    reverse_configured e = ground arith

    module _ (window : ℕ) (configured : env.reverse_window m.mine_id ≡ some window) where
      reverse_in_time : window_expired env at window ≡ false
      unfolding reverse_mission_payment get_mission_by_id update_mission
      reverse_in_time = ground arith

      reverse_writes : OnlyPayment i failed s (reverse_mission_payment env i reason user s).1
      unfolding reverse_mission_payment get_mission_by_id update_mission
      reverse_writes = ground arith

release_writes :
    (i : ℕ) (reason : String) (user : ℕ) (s : Db) (m : Mission)
    → find i s.missions ≡ some m
    → m.payment_state ≡ held
    → ((release_mission_payment i reason user s).0 ≡ ok (apply_patch (payment_patch distributed) m))
      × OnlyPayment i distributed s (release_mission_payment i reason user s).1
unfolding release_mission_payment get_mission_by_id update_mission
release_writes i reason user s m found e = (ground arith, ground arith)

-- A mission whose payment is not settled can be held, and the payment that was held can be released:
-- it is distributed then, whatever it was before the hold. No other mission, ticket, transaction or
-- pool changes.
hold_release :
    (i : ℕ) (reason : String) (user : ℕ) (s : Db) (m : Mission)
    → find i s.missions ≡ some m
    → m.payment_state ≢ PaymentState.settled
    → (reason' : String) (user' : ℕ)
    → let s1 = (hold_mission_payment i reason user s).1 in
      let (outcome, s2) = release_mission_payment i reason' user' s1 in
      (find i s1.missions ≡ some (record m { payment_state = held }))
      × (outcome ≡ ok (record m { payment_state = distributed }))
      × (find i s2.missions ≡ some (record m { payment_state = distributed }))
      × ((j : ℕ) → j ≢ i → find j s2.missions ≡ find j s.missions)
      × (s2.tickets ≡ s.tickets)
      × (s2.transactions ≡ s.transactions)
      × (s2.pools ≡ s.pools)
hold_release i reason user s m found unsettled reason' user' =
    let (_, h) = hold_writes i reason user s m found unsettled in
    let row : find i (hold_mission_payment i reason user s).1.missions
        ≡ some (record m { payment_state = held }) =
      rw h.missions (find-update_self i (apply_patch (payment_patch held)) s.missions found) in
    let (outcome, r) =
      release_writes i reason' user' (hold_mission_payment i reason user s).1
        (apply_patch (payment_patch held) m) row refl in
    (
      row,
      outcome,
      rw r.missions (find-update_self i _ _ row),
      λ j ne.
          rw (r.missions, h.missions)
            (find-update_ne j i _ _ ne ∙ find-update_ne j i _ s.missions ne),
      r.tickets ∙ h.tickets,
      r.transactions ∙ h.transactions,
      r.pools ∙ h.pools,
    )

reverse_missing :
    (env : Env) (i : ℕ) (reason : String) (user : ℕ) (s : Db) (m' : Mission)
    → find i s.missions ≡ none
    → (reverse_mission_payment env i reason user s).0 ≢ ok m'
unfolding reverse_mission_payment get_mission_by_id
reverse_missing env i reason user s m' missing h = ground arith

-- A reversal that goes through is of a verified mission that is not settled, no later after its
-- verification than the window of its mine. It marks the payment failed, and changes nothing else but the
-- logs: no other mission, no transaction and no pool.
reverse_ok :
    (env : Env) (i : ℕ) (reason : String) (user : ℕ) (s : Db) (m' : Mission)
    → (reverse_mission_payment env i reason user s).0 ≡ ok m'
    → let s' = (reverse_mission_payment env i reason user s).1 in
      (m : Mission) × (find i s.missions ≡ some m)
      × ((status_eq m.status settled || is_settled m.payment_state) ≡ false)
      × ((at : ℕ) × (window : ℕ) × (m.verified_at ≡ some at)
          × (env.reverse_window m.mine_id ≡ some window)
          × (env.now - at ≤ window))
      × (find i s'.missions ≡ some (record m { payment_state = failed }))
      × ((j : ℕ) → j ≢ i → find j s'.missions ≡ find j s.missions)
      × (s'.transactions ≡ s.transactions)
      × (s'.pools ≡ s.pools)
reverse_ok env i reason user s m' h = elim (Option-cases (find i s.missions)) [
  | inl missing ↦ absurd (reverse_missing env i reason user s m' missing h)
  | inr (m, found) ↦ elim (Option-cases m.verified_at) [
    | inl unverified ↦ absurd (reverse_verified env i reason user s m m' found h unverified)
    | inr (at, verified) ↦ elim (Option-cases (env.reverse_window m.mine_id)) [
      | inl unset ↦ absurd (reverse_configured env i reason user s m m' found h at verified unset)
      | inr (window, configured) ↦
          let w = reverse_writes env i reason user s m m' found h at verified window configured in
          let expired =
            reverse_in_time env i reason user s m m' found h at verified window configured in
          (
            m,
            found,
            reverse_unsettled env i reason user s m m' found h,
            (at, window, verified, configured, ground arith),
            rw w.missions (find-update_self i _ s.missions found),
            λ j ne. rw w.missions (find-update_ne j i _ s.missions ne),
            w.transactions,
            w.pools,
          )
    ]
  ]
]
