-- ===== src/Service/Connections/Written.antt =====
-- service/db/configure/configure.go and service/server/service/connect.go: what a group holds after a
-- write.
use v2ray_a.Base.{
  ℕ, ◌+◌, ◌≡◌, refl, sym, ap, ◌∙◌, subst, Bool, true, false, not, Option, none, some, List, [], ◌∷◌,
  ◌++◌, append_assoc, append-nil, Text, text_beq, text_beq_iff, text_beq_refl, text_eq, is_empty,
  if◌then◌else◌, any, All, lookup, insert, lookup-insert, pos, is_positive, is_negative, ◌⊎◌, inl,
  inr, Bool-cases,
}
use v2ray_a.Service.Nodes.{
  NodeRef, server_type, subscription_type, subscription_server_type, unknown_type, TouchType,
  ref_beq, equal_to,
}
use v2ray_a.Service.Connections.{
  Groups, or_proxy, filled, get_connected, members, clear_connects, fill_unless, add_connect,
  by_outbound, write_groups, overwrite_connects, ConnectError, restore, normal_touch, keep_new,
  normalize, invalid_id, invalid_subscription, invalid_type,
}

-- Every reference names the group that it is in.
abbrev pub Homed : Text → List NodeRef → Type 0
Homed out refs = All (λ w. text_beq w.outbound out ≡ true) refs

pub members-insert :
    (out o : Text) (refs : List NodeRef) (g : Groups)
    → members o (insert out refs g) ≡ (if text_beq out o then refs else members o g)
unfolding members
members-insert out o refs g =
    ap (λ (held : Option (List NodeRef)). elim held [ none ↦ [] | some rs ↦ rs ])
      (lookup-insert out o refs g)
    ∙ (pushed (text_beq out o))
  where
    pushed :
        (b : Bool)
        → elim (if b then some refs else lookup o g) [ none ↦ [] | some rs ↦ rs ]
          ≡ (if b then refs else elim (lookup o g) [ none ↦ [] | some rs ↦ rs ])
    pushed true = refl
    pushed false = refl

by_outbound-one :
    (out : Text) (ws refs : List NodeRef)
    → Homed out ws
    → by_outbound ws ((out, refs) ∷ []) ≡ (out, refs ++ ws) ∷ []
unfolding by_outbound insert lookup
by_outbound-one out [] refs homed =
    ap (λ (rs : List NodeRef). (out, rs) ∷ []) (sym (append-nil refs))
by_outbound-one out (w ∷ ws) refs (now, later) =
    let e : w.outbound ≡ out = (text_beq_iff w.outbound out).0 now in
    rw (ap (text_beq out) e ∙ text_beq_refl out) (
      ap (λ (k : Text). by_outbound ws ((k, refs ++ (w ∷ [])) ∷ [])) e
      ∙ by_outbound-one out ws (refs ++ (w ∷ [])) later
      ∙ ap (λ (rs : List NodeRef). (out, rs) ∷ []) (append_assoc refs (w ∷ []) ws))

pub overwrite_connects-members :
    (out o : Text) (w : NodeRef) (ws : List NodeRef) (g : Groups)
    → Homed out (w ∷ ws)
    → members o (overwrite_connects (w ∷ ws) g) ≡ (if text_beq out o then w ∷ ws else members o g)
unfolding overwrite_connects by_outbound write_groups insert lookup
overwrite_connects-members out o w ws g (now, later) =
    let e : w.outbound ≡ out = (text_beq_iff w.outbound out).0 now in
    ap (λ (k : Text). members o (write_groups (by_outbound ws ((k, w ∷ []) ∷ [])) g)) e
    ∙ ap (λ (gs : Groups). members o (write_groups gs g)) (by_outbound-one out ws (w ∷ []) later)
    ∙ members-insert out o (w ∷ ws) g

or_proxy-home : (out : Text) → is_empty (or_proxy out) ≡ false
or_proxy-home [] = refl
or_proxy-home (x ∷ xs) = refl

pub or_proxy_idem : (out : Text) → or_proxy (or_proxy out) ≡ or_proxy out
or_proxy_idem out = rw (or_proxy-home out) refl

pub clear_connects-members :
    (out o : Text) (g : Groups)
    → or_proxy out ≡ out
    → members o (clear_connects out g) ≡ (if text_beq out o then [] else members o g)
unfolding clear_connects
clear_connects-members out o g home = rw home (members-insert out o [] g)

abbrev pub held : Option (List NodeRef) → List NodeRef
held none = []
held (some refs) = refs

pub members-held : (out : Text) (g : Groups) → members out g ≡ held (lookup out g)
unfolding members
members-held out g = by_case (lookup out g)
  where
    by_case : (o : Option (List NodeRef)) → elim o [ none ↦ [] | some refs ↦ refs ] ≡ held o
    by_case none = refl
    by_case (some refs) = refl

-- What is written back is what the group held.
restore-members :
    (out o : Text) (before : Option (List NodeRef)) (g : Groups)
    → or_proxy out ≡ out
    → Homed out (held before)
    → members o (restore out before g) ≡ (if text_beq out o then held before else members o g)
restore-members out o none g home homed = clear_connects-members out o g home
restore-members out o (some []) g home homed = clear_connects-members out o g home
restore-members out o (some (w ∷ ws)) g home homed = overwrite_connects-members out o w ws g homed

-- A change of one group, undone.
pub undone :
    (out o : Text) (new : List NodeRef) (g g' : Groups)
    → or_proxy out ≡ out
    → Homed out (members out g)
    → members o g' ≡ (if text_beq out o then new else members o g)
    → members o (restore out (get_connected out g) g') ≡ members o g
unfolding get_connected
undone out o new g g' home homed change =
    ap (λ k. members o (restore out (lookup k g) g')) home
    ∙ restore-members out o (lookup out g) g' home (subst (Homed out) (members-held out g) homed)
    ∙ elim (Bool-cases (text_beq out o)) [
      | inl same ↦
          rw same (sym (members-held out g) ∙ ap (λ k. members k g) ((text_beq_iff out o).0 same))
      | inr other ↦ rw other (change ∙ ap (λ b. if b then new else members o g) other)
    ]

filled-home :
    (out : Text) (v : NodeRef) → or_proxy out ≡ out → text_beq v.outbound out ≡ true → filled v ≡ v
filled-home out v home same =
    let e : v.outbound ≡ out = (text_beq_iff v.outbound out).0 same in
    ap (λ (t : Text). record v { outbound = t }) (ap or_proxy e ∙ home ∙ sym e)

-- A group with a reference more, unless it is there.
abbrev pub with_ref : NodeRef → List NodeRef → List NodeRef
with_ref wt refs = if any (λ v. equal_to v wt) refs then refs else refs ++ (wt ∷ [])

fill_unless-any :
    (out : Text) (wt : NodeRef) (refs : List NodeRef)
    → or_proxy out ≡ out
    → Homed out refs
    → fill_unless wt refs ≡ (if any (λ v. equal_to v wt) refs then none else some refs)
unfolding fill_unless
fill_unless-any out wt [] home homed = refl
fill_unless-any out wt (v ∷ vs) home (now, later) =
    ap (λ u. step u (fill_unless wt vs)) (filled-home out v home now)
    ∙ ap (step v) (fill_unless-any out wt vs home later)
    ∙ by_case (equal_to v wt) (any (λ u. equal_to u wt) vs)
  where
    step : NodeRef → Option (List NodeRef) → Option (List NodeRef)
    step u rest =
        if equal_to u wt then none else elim rest [ none ↦ none | some refs ↦ some (u ∷ refs) ]

    by_case :
        (here there : Bool)
        → (if here then none else elim (if there then none else some vs) [
          | none ↦ none
          | some refs ↦ some (v ∷ refs)
        ])
          ≡ (if (if here then true else there) then none else some (v ∷ vs))
    by_case true there = refl
    by_case false true = refl
    by_case false false = refl

pub unchanged_members :
    (out o : Text) (g : Groups)
    → members o g ≡ (if text_beq out o then members out g else members o g)
unchanged_members out o g = elim (Bool-cases (text_beq out o)) [
  | inl same ↦ rw same (ap (λ k. members k g) (sym ((text_beq_iff out o).0 same)))
  | inr other ↦ rw other refl
]

pub add_connect-members :
    (which : NodeRef) (o : Text) (g : Groups)
    → Homed (or_proxy which.outbound) (members (or_proxy which.outbound) g)
    → members o (add_connect which g) ≡ (
        if text_beq (or_proxy which.outbound) o
        then with_ref (filled which) (members (or_proxy which.outbound) g)
        else members o g)
unfolding add_connect
add_connect-members which o g homed =
    let out = or_proxy which.outbound in
    ap (λ r. members o (added out r))
      (fill_unless-any out (filled which) (members out g) (or_proxy_idem which.outbound) homed)
    ∙ by_case out (any (λ v. equal_to v (filled which)) (members out g))
  where
    added : Text → Option (List NodeRef) → Groups
    added out r = elim r [ none ↦ g | some refs ↦ insert out (refs ++ (filled which ∷ [])) g ]

    by_case :
        (out : Text) (b : Bool)
        → members o (added out (if b then none else some (members out g))) ≡ (
            if text_beq out o
            then (if b then members out g else members out g ++ (filled which ∷ []))
            else members o g)
    by_case out true = unchanged_members out o g
    by_case out false = members-insert out o (members out g ++ (filled which ∷ [])) g

pub add_connect_idem :
    (which : NodeRef) (g : Groups) → add_connect (filled which) g ≡ add_connect which g
unfolding add_connect
add_connect_idem which g =
    ap
      (λ (w : NodeRef). elim (fill_unless w (members w.outbound g)) [
        | none ↦ g
        | some refs ↦ insert w.outbound (refs ++ (w ∷ [])) g
      ])
      (ap (λ (t : Text). record which { outbound = t }) (or_proxy_idem which.outbound))

Homed-append :
    (out : Text) (refs : List NodeRef) (ref : NodeRef)
    → Homed out refs
    → text_beq ref.outbound out ≡ true
    → Homed out (refs ++ (ref ∷ []))
Homed-append out [] ref homed fits = (fits, tt)
Homed-append out (r ∷ refs) ref (now, later) fits = (now, Homed-append out refs ref later fits)

kept-Homed :
    (b : Bool) (out : Text) (refs : List NodeRef) (ref : NodeRef)
    → Homed out refs
    → text_beq ref.outbound out ≡ true
    → Homed out (if b then refs else refs ++ (ref ∷ []))
kept-Homed true out refs ref homed fits = homed
kept-Homed false out refs ref homed fits = Homed-append out refs ref homed fits

normal_touch-home :
    (out : Text) (i : ℕ) (t ref : NodeRef)
    → normal_touch out i t ≡ inr ref
    → text_beq ref.outbound out ≡ true
unfolding normal_touch
normal_touch-home out i t ref same = by_case (is_positive t.id) t.type same
  where
    read_home :
        (b : Bool) (e : ConnectError) (u : NodeRef)
        → u.outbound ≡ out
        → ◌≡◌ {A = ConnectError ⊎ NodeRef} (if b then inl e else inr u) (inr ref)
        → text_beq ref.outbound out ≡ true
    read_home true e u home same = absurd cc
    read_home false e u home same =
        let path : u ≡ ref = cc in
        ap (λ o. text_beq o out) (sym (ap (λ (r : NodeRef). r.outbound) path) ∙ home)
        ∙ text_beq_refl out

    by_case :
        (b : Bool) (ty : TouchType)
        → (if not b then inl (invalid_id i) else elim ty [
          | server_type ↦ inr (record t { outbound = out; sub = pos 0 })
          | subscription_server_type ↦
              if is_negative t.sub
              then inl (invalid_subscription i)
              else inr (record t { outbound = out })
          | subscription_type ↦ inl (invalid_type i)
          | unknown_type u ↦ inl (invalid_type i)
        ])
          ≡ inr ref
        → text_beq ref.outbound out ≡ true
    by_case false ty same = absurd cc
    by_case true server_type same =
        read_home false (invalid_id i) (record t { outbound = out; sub = pos 0 }) refl same
    by_case true subscription_type same = absurd cc
    by_case true (unknown_type u) same = absurd cc
    by_case true subscription_server_type same =
        read_home (is_negative t.sub) (invalid_subscription i) (record t { outbound = out }) refl
          same

pub normalize-Homed :
    (out : Text) (i : ℕ) (ts refs rs : List NodeRef)
    → Homed out refs
    → normalize out i ts refs ≡ inr rs
    → Homed out rs
unfolding normalize
normalize-Homed out i [] refs rs homed same = let e : refs ≡ rs = cc in subst (Homed out) e homed
normalize-Homed out i (t ∷ ts) refs rs homed same =
    by_case (normal_touch out i t) (normal_touch-home out i t)
      (λ ref fits.
        normalize-Homed out (i + 1) ts (keep_new ref refs) rs
          (kept-Homed (any (ref_beq ref) refs) out refs ref homed fits))
      same
  where
    by_case :
        (read : ConnectError ⊎ NodeRef)
        → ((ref : NodeRef) → read ≡ inr ref → text_beq ref.outbound out ≡ true)
        → ((ref : NodeRef)
            → text_beq ref.outbound out ≡ true
            → normalize out (i + 1) ts (keep_new ref refs) ≡ inr rs
            → Homed out rs)
        → elim read [ inl e ↦ inl e | inr ref ↦ normalize out (i + 1) ts (keep_new ref refs) ]
          ≡ inr rs
        → Homed out rs
    by_case (inl e) fits later same = absurd cc
    by_case (inr ref) fits later same = later ref (fits ref refl) same
