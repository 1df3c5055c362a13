-- ===== src/Service/Connections/Removed.antt =====
-- service/server/service/connect.go: a disconnection is made, or it is undone.
use v2ray_a.Base.{
  ◌≡◌, refl, sym, ap, ◌∙◌, subst, Bool, true, false, not, ◌&&◌, Option, none, some, List, [], any,
  ◌||◌, ◌∷◌, Text, text_beq, text_beq_iff, text_eq, if◌then◌else◌, lookup, insert, inl, inr,
  Bool-cases,
}
use v2ray_a.Service.Nodes.{NodeRef, equal_to, is_some}
use v2ray_a.Service.Connections.{
  Groups, or_proxy, filled, get_connected, members, clear_connects, by_outbound, write_groups,
  overwrite_connects, Kernel, Change, remove_connect, remove_first, fill_all, disconnect,
  not_connected, not_updated, automatic, refused, changed,
}
use v2ray_a.Service.Connections.Written.{
  Homed, members-insert, overwrite_connects-members, clear_connects-members, or_proxy_idem,
  members-held, held, unchanged_members,
}
use v2ray_a.Service.Connections.Restored.{as_changed}
use v2ray_a.Service.Connections.Left.{
  left_of, remove_first_lem, fill_all-Homed, is_some-remove_first,
}

abbrev removed : Bool → NodeRef → Groups → Option Groups
removed clear_all wt g =
    if clear_all then some (clear_connects wt.outbound g) else remove_connect wt g

-- A disconnection takes effect on its group, where the reference names its group.
removed-members :
    (clear_all : Bool) (wt : NodeRef) (g g' : Groups) (o : Text)
    → filled wt ≡ wt
    → Homed wt.outbound (members wt.outbound g)
    → removed clear_all wt g ≡ some g'
    → members o g' ≡ (
        if text_beq wt.outbound o
        then left_of clear_all wt (members wt.outbound g)
        else members o g)
unfolding remove_connect
removed-members true wt g g' o home homed same =
    let e : clear_connects wt.outbound g ≡ g' = cc in
    ap (members o) (sym e)
    ∙ clear_connects-members wt.outbound o g (ap (λ (r : NodeRef). r.outbound) home)
removed-members false wt g g' o home homed same =
    by_case (remove_first wt (members wt.outbound g)) (remove_first_lem wt (members wt.outbound g))
      (ap
          (λ (rs : List NodeRef). elim (remove_first wt rs) [
            | none ↦ none
            | some refs ↦ some (insert wt.outbound refs g)
          ])
          (sym (fill_all-Homed wt.outbound _ (ap (λ (r : NodeRef). r.outbound) home) homed))
        ∙ ap
            (λ (w : NodeRef). elim (remove_first w (fill_all (members w.outbound g))) [
              | none ↦ none
              | some refs ↦ some (insert w.outbound refs g)
            ])
            (sym home)
        ∙ same)
  where
    by_case :
        (r : Option (List NodeRef))
        → ((rs : List NodeRef) → r ≡ some rs → rs ≡ left_of false wt (members wt.outbound g))
        → ◌≡◌ {A = Option Groups}
            (elim r [ none ↦ none | some refs ↦ some (insert wt.outbound refs g) ])
            (some g')
        → members o g' ≡ (
            if text_beq wt.outbound o
            then left_of false wt (members wt.outbound g)
            else members o g)
    by_case none lost same = absurd cc
    by_case (some refs) lost same =
        let e : insert wt.outbound refs g ≡ g' = cc in
        ap (members o) (sym e)
        ∙ members-insert wt.outbound o refs g
        ∙ ap (λ (rs : List NodeRef). if text_beq wt.outbound o then rs else members o g)
            (lost refs refl)

-- A disconnection finds something to remove where all are to go, or one is like the reference.
is_some-removed :
    (clear_all : Bool) (wt : NodeRef) (g : Groups)
    → filled wt ≡ wt
    → Homed wt.outbound (members wt.outbound g)
    → is_some (removed clear_all wt g)
      ≡ (clear_all || any (λ v. equal_to v wt) (members wt.outbound g))
unfolding remove_connect
is_some-removed true wt g home homed = refl
is_some-removed false wt g home homed =
    ap
      (λ (w : NodeRef). is_some (elim (remove_first w (fill_all (members w.outbound g))) [
        | none ↦ none
        | some refs ↦ some (insert w.outbound refs g)
      ]))
      home
    ∙ ap
        (λ (rs : List NodeRef). is_some (elim (remove_first wt rs) [
          | none ↦ none
          | some refs ↦ some (insert wt.outbound refs g)
        ]))
        (fill_all-Homed wt.outbound _ (ap (λ (r : NodeRef). r.outbound) home) homed)
    ∙ stored (remove_first wt (members wt.outbound g))
    ∙ is_some-remove_first wt (members wt.outbound g)
  where
    stored :
        (r : Option (List NodeRef))
        → is_some {A = Groups}
            (elim r [ none ↦ none | some refs ↦ some (insert wt.outbound refs g) ])
          ≡ is_some r
    stored none = refl
    stored (some refs) = refl

-- The group without members has nothing left.
left_of-none : (clear_all : Bool) (wt : NodeRef) → left_of clear_all wt [] ≡ []
left_of-none true wt = refl
left_of-none false wt = refl

-- The rollback: the members from before are written over what is left.
abbrev written_back : Option (List NodeRef) → Groups → Groups
written_back none g' = g'
written_back (some refs) g' = overwrite_connects refs g'

written_back_eq :
    (before : Option (List NodeRef)) (g' : Groups)
    → elim before [ none ↦ g' | some refs ↦ overwrite_connects refs g' ] ≡ written_back before g'
written_back_eq none g' = refl
written_back_eq (some refs) g' = refl

written_back-members :
    (before : Option (List NodeRef)) (out o : Text) (new : List NodeRef) (g g' : Groups)
    → held before ≡ members out g
    → (held before ≡ [] → new ≡ [])
    → Homed out (held before)
    → members o g' ≡ (if text_beq out o then new else members o g)
    → members o (written_back before g') ≡ members o g
unfolding overwrite_connects by_outbound write_groups
written_back-members none out o new g g' same gone homed change =
    change
    ∙ ap (λ (rs : List NodeRef). if text_beq out o then rs else members o g) (gone refl ∙ same)
    ∙ sym (unchanged_members out o g)
written_back-members (some []) out o new g g' same gone homed change =
    change
    ∙ ap (λ (rs : List NodeRef). if text_beq out o then rs else members o g) (gone refl ∙ same)
    ∙ sym (unchanged_members out o g)
written_back-members (some (w ∷ ws)) out o new g g' same gone homed change =
    overwrite_connects-members out o w ws g' homed ∙ elim (Bool-cases (text_beq out o)) [
      | inl here ↦ rw here (same ∙ ap (λ k. members k g) ((text_beq_iff out o).0 here))
      | inr other ↦ rw other (change ∙ ap (λ b. if b then new else members o g) other)
    ]

filled_idem : (which : NodeRef) → filled (filled which) ≡ filled which
filled_idem which = ap (λ (t : Text). record which { outbound = t }) (or_proxy_idem which.outbound)

-- A disconnection that is of a group which manages itself, or that finds nothing to remove, or that the
-- running core does not take, fails.
abbrev pub disconnection_fails : Kernel → NodeRef → Bool → List NodeRef → Bool
disconnection_fails k wt clear_all refs =
    k.auto_add wt.outbound
    || not (clear_all || any (λ v. equal_to v wt) refs)
    || (k.core_runs && not k.updates)

-- Where every reference stored for the group names it, and the core goes on running when an update of
-- it fails, a disconnection fails exactly if its group manages itself, there is nothing to remove, or
-- the running core does not take what is left; then every group has the members that it had.
-- Otherwise its group has lost one member, the first that is like the reference, or all, as was asked,
-- and every other group has those that it had.
pub disconnect-as_changed :
    (k : Kernel) (which : NodeRef) (clear_all : Bool) (g : Groups) (o : Text)
    → k.still_runs ≡ true
    → Homed (or_proxy which.outbound) (members (or_proxy which.outbound) g)
    → let change = disconnect k which clear_all g in
      let out = or_proxy which.outbound in
      (is_some change.failure ≡ disconnection_fails k (filled which) clear_all (members out g))
      × (members o change.groups
          ≡ as_changed out (left_of clear_all (filled which) (members out g)) g o change)
unfolding disconnect get_connected
disconnect-as_changed k which clear_all g o runs homed =
    by_case (k.auto_add out) (removed clear_all wt g) (k.core_runs && not k.updates)
      (clear_all || any (λ v. equal_to v wt) (members out g))
      (is_some-removed clear_all wt g (filled_idem which) homed)
      (λ g' same. removed-members clear_all wt g g' o (filled_idem which) homed same)
  where
    wt : NodeRef
    wt = filled which

    out : Text
    out = or_proxy which.outbound

    new : List NodeRef
    new = left_of clear_all wt (members out g)

    outcome : Bool → Option Groups → Bool → Change
    outcome auto left fails = if auto then refused (automatic out) g else elim left [
      | none ↦ refused (not_connected wt) g
      | some g' ↦
          if fails
          then refused not_updated (
              if k.still_runs
              then elim (lookup (or_proxy out) g) [
                | none ↦ g'
                | some refs ↦ overwrite_connects refs g'
              ]
              else g')
          else changed g'
    ]

    taken_back :
        (g' : Groups)
        → ((g2 : Groups)
            → some g' ≡ some g2
            → members o g2 ≡ (if text_beq out o then new else members o g))
        → members o (outcome false (some g') true).groups ≡ members o g
    taken_back g' effect =
        ap
          (λ b. members o (
            if b
            then elim (lookup (or_proxy out) g) [
              | none ↦ g'
              | some refs ↦ overwrite_connects refs g'
            ]
            else g'))
          runs
        ∙ ap (members o) (written_back_eq (lookup (or_proxy out) g) g')
        ∙ ap (λ key. members o (written_back (lookup key g) g')) (or_proxy_idem which.outbound)
        ∙ written_back-members (lookup out g) out o new g g' (sym (members-held out g))
            (λ e. ap (left_of clear_all wt) (members-held out g ∙ e) ∙ left_of-none clear_all wt)
            (subst (Homed out) (members-held out g) homed) (effect g' refl)

    by_case :
        (auto : Bool) (left : Option Groups) (fails found : Bool)
        → is_some left ≡ found
        → ((g' : Groups)
            → left ≡ some g'
            → members o g' ≡ (if text_beq out o then new else members o g))
        → (is_some (outcome auto left fails).failure ≡ (auto || not found || fails))
          × (members o (outcome auto left fails).groups
              ≡ as_changed out new g o (outcome auto left fails))
    by_case true left fails found same effect = (refl, refl)
    by_case false none fails found same effect = (rw⁻¹ same refl, refl)
    by_case false (some g') false found same effect = (rw⁻¹ same refl, effect g' refl)
    by_case false (some g') true found same effect = (rw⁻¹ same refl, taken_back g' effect)
