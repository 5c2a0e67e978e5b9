-- ===== src/Kafka/ControlPlane/CatchUp.antt =====
-- The start of the reader against the topic: offsets noted before the snapshot, and the events
-- behind them read once more on top of it.
use alert_distributor.Base.{
  ℕ, ap, ◌≡◌, refl, sym, ◌∙◌, inl, inr, List, [], ◌∷◌, ◌++◌, nat_eq, list_eq,
}
use alert_distributor.Permissions.Cache.{State, empty}
use alert_distributor.Permissions.Cache.Invariant.{Inv}
use alert_distributor.Permissions.Cache.Invariant.Keeps.{empty-Inv}
use alert_distributor.Permissions.Cache.Facts.{Key, fact, OverwritesAt}
use alert_distributor.Kafka.ControlPlane.{Serde, apply_event}
use alert_distributor.Kafka.ControlPlane.Replay.{
  apply_all, apply_all-Overwrites, apply_all-Inv, apply_all_twice,
}

pub same_at :
    (k : Key) (f : State → State) (s t : State)
    → OverwritesAt k f
    → Inv s
    → Inv t
    → fact k s ≡ fact k t
    → fact k (f s) ≡ fact k (f t)
same_at k f s t (inl e) v w h = e s v ∙ h ∙ sym (e t w)
same_at k f s t (inr (x, e)) v w h = e s v ∙ sym (e t w)

module _ (serde : Serde) where
  pub apply_all-append :
      (early late : List (List ℕ)) (s : State)
      → apply_all serde (early ++ late) s ≡ apply_all serde late (apply_all serde early s)
  unfolding apply_all
  apply_all-append [] late s = refl
  apply_all-append (payload ∷ early) late s =
      apply_all-append early late (apply_event serde payload s).1

  -- What was applied before the snapshot is applied again, and then the rest.
  pub reread :
      (k : Key) (before between after : List (List ℕ)) (s : State)
      → Inv s
      → fact k s ≡ fact k (apply_all serde (before ++ between) empty)
      → fact k (apply_all serde (between ++ after) s)
        ≡ fact k (apply_all serde (before ++ (between ++ after)) empty)
  reread k before between after s v same =
      let all = apply_all serde in
      let r = all before empty in
      let w = apply_all-Inv serde before empty empty-Inv in
      let w' = apply_all-Inv serde between r w in
      let same' : fact k s ≡ fact k (all between r) =
        same ∙ ap (fact k) (apply_all-append before between empty) in
      let again : fact k (all between s) ≡ fact k (all between r) =
        same_at k (all between) s (all between r) ((apply_all-Overwrites serde between).at k) v w'
          same'
        ∙ apply_all_twice serde between r k w in
      ap (fact k) (apply_all-append between after s)
      ∙ (same_at k (all after) (all between s) (all between r)
            ((apply_all-Overwrites serde after).at k) (apply_all-Inv serde between s v) w' again
          ∙ ap (fact k) (
              sym (
                apply_all-append before (between ++ after) empty
                ∙ apply_all-append between after r)))
