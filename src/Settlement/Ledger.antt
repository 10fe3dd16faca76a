-- ===== src/Settlement/Ledger.antt =====
-- The registry of move/sources/settlement.move over any run of settle calls.
use podseq.Prelude.{
  ℕ, suc, ◌+◌, ◌≤◌, ◌≡◌, refl, sym, ap, ◌∙◌, ok_injective, ◌⊎◌, Option, none, some, List, [], ◌∷◌,
  arith, Result, ok, err, ◌==◌, ==_iff, Bool-cases, inl, inr, if◌then◌else◌,
}
use podseq.Store.Map.{get, insert, get-insert}
use podseq.Deadline.Inbox.{enforce_settle}
use podseq.Settlement.{Registry, SettleAbort, do_settle, same_blob, add_commitment}
use podseq.Deadline.Inbox as Inbox
use mathlib.Core.Path.{subst}

-- The arguments of one call of `settle_as`.
pub record SettleCall : Type 0 where
  pub blob_id : ℕ
  pub height : ℕ
  pub block_ts : ℕ
  pub inbox_cursor : ℕ

unless_abort : Registry → Result SettleAbort Registry → Registry
unless_abort r (ok r') = r'
unless_abort r (err _) = r

unfoldable pub settle_or_abort : Registry → SettleCall → Registry
unfolding unless_abort do_settle
settle_or_abort r c = unless_abort r (do_settle r c.blob_id c.height c.block_ts c.inbox_cursor)

unfoldable pub run_settles : Registry → List SettleCall → Registry
unfolding settle_or_abort
run_settles r [] = r
run_settles r (c ∷ cs) = run_settles (settle_or_abort r c) cs

-- No height above the latest is committed.
abbrev pub Within : Registry → Type 0
Within r = (h b : ℕ) → get h r.commitments ≡ some b → h ≤ r.latest_height

-- One more height is committed.
abbrev Added : Registry → SettleCall → Registry → Type 0
Added r c r' =
    (c.height ≡ suc r.latest_height)
    × (r'.latest_height ≡ c.height)
    × (r'.commitments ≡ insert c.height c.blob_id r.commitments)

added :
    (r : Registry) (c : SettleCall) (r' : Registry) (x : Result Inbox.Abort Inbox.Inbox)
    → c.height ≡ suc r.latest_height
    → add_commitment r c.blob_id c.height x ≡ ok r'
    → Added r c r'
unfolding add_commitment
added r c r' (ok i) h e =
    let k = ok_injective e in
    (h, ap (λ y. y.latest_height) (sym k), ap (λ y. y.commitments) (sym k))
added r c r' (err x) h e = ground arith

resettled :
    (r : Registry) (c : SettleCall) (r' : Registry) (o : Option ℕ)
    → same_blob r c.blob_id o ≡ ok r'
    → r' ≡ r
unfolding same_blob
resettled r c r' none e = ground arith
resettled r c r' (some b) e = ground arith

do_settle-ok :
    (r : Registry) (c : SettleCall) (r' : Registry)
    → do_settle r c.blob_id c.height c.block_ts c.inbox_cursor ≡ ok r'
    → (r' ≡ r) ⊎ Added r c r'
unfolding do_settle
do_settle-ok r c r' e = elim (Bool-cases (c.height == r.latest_height)) [
  | inl t ↦ inl (resettled r c r' (get c.height r.commitments) (ground arith))
  | inr f ↦ elim (Bool-cases (c.height == r.latest_height + 1)) [
    | inl t ↦
        let h = (==_iff c.height (r.latest_height + 1)).0 t in
        inr (
          added r c r' (enforce_settle r.inbox c.block_ts c.inbox_cursor) (omega (arith, h))
            (ground arith))
    | inr g ↦ ground arith
  ]
]

left :
    (r : Registry) (c : SettleCall) (x : Result SettleAbort Registry)
    → do_settle r c.blob_id c.height c.block_ts c.inbox_cursor ≡ x
    → (unless_abort r x ≡ r) ⊎ Added r c (unless_abort r x)
unfolding unless_abort
left r c (ok r') e = do_settle-ok r c r' e
left r c (err a) e = inl refl

settle_or_abort-cases :
    (r : Registry) (c : SettleCall) → (settle_or_abort r c ≡ r) ⊎ Added r c (settle_or_abort r c)
unfolding settle_or_abort
settle_or_abort-cases r c = left r c (do_settle r c.blob_id c.height c.block_ts c.inbox_cursor) refl

added-get :
    (r : Registry) (c : SettleCall) (r' : Registry) (h : ℕ)
    → r'.commitments ≡ insert c.height c.blob_id r.commitments
    → get h r'.commitments ≡ (if c.height == h then some c.blob_id else get h r.commitments)
added-get r c r' h k = ap (get h) k ∙ get-insert c.height h c.blob_id r.commitments

Within-added : (r : Registry) (c : SettleCall) (r' : Registry) → Within r → Added r c r' → Within r'
Within-added r c r' w (e, l, k) h b g =
    let q = added-get r c r' h k in
    elim (Bool-cases (c.height == h)) [
      | inl t ↦ let i = (==_iff c.height h).0 t in omega (arith, i, l)
      | inr f ↦
          let g0 : get h r.commitments ≡ some b = ground arith in
          let i = w h b g0 in omega (arith, i, l, e)
    ]

kept-added :
    (r : Registry) (c : SettleCall) (r' : Registry) (h b : ℕ)
    → Within r
    → Added r c r'
    → get h r.commitments ≡ some b
    → get h r'.commitments ≡ some b
kept-added r c r' h b w (e, l, k) g =
    let q = added-get r c r' h k in
    let i = w h b g in
    elim (Bool-cases (c.height == h)) [
      | inl t ↦ let j = (==_iff c.height h).0 t in absurd (omega (arith, i, j, e))
      | inr f ↦ ground arith
    ]

-- A height that is settled keeps its blob, over any run of settle calls, those that abort included.
pub run_settles-append_only :
    (r : Registry) (cs : List SettleCall) (h b : ℕ)
    → Within r
    → get h r.commitments ≡ some b
    → get h (run_settles r cs).commitments ≡ some b
unfolding run_settles
run_settles-append_only r [] h b w g = g
run_settles-append_only r (c ∷ cs) h b w g = elim (settle_or_abort-cases r c) [
  | inl e ↦
      run_settles-append_only (settle_or_abort r c) cs h b (subst Within (sym e) w)
        (subst (λ x. get h x.commitments ≡ some b) (sym e) g)
  | inr a ↦
      run_settles-append_only (settle_or_abort r c) cs h b
        (Within-added r c (settle_or_abort r c) w a)
        (kept-added r c (settle_or_abort r c) h b w a g)
]
