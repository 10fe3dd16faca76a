-- ===== src/Bridge/Chains/Context.antt =====
-- The relayer over both chains: what holds of its state between two requests, and what a request adds.
use podseq.Prelude.{
  ℕ, ◌≤◌, ◌≡◌, sym, ◌∙◌, Bool, true, false, some, List, [], ◌∷◌, Result, ok, err, All,
  if◌then◌else◌,
}
use podseq.Call.{Call, within, focus}
use podseq.Call.Ensures.{Post, Ensures}
use podseq.Core.Octets.{Bytes}
use podseq.Bridge.Abi.{same_bytes, trim_0x, from_be_bytes, slice}
use podseq.Bridge.Registry.{TokenRegistry, Cursors, from_snapshot}
use podseq.Bridge.{State, last_minted_deposit_nonce, minted_any}
use podseq.Bridge.Token.{Token}
use podseq.Bridge.Requests.{on_world, request, last_is_set}
use podseq.Bridge.Chains.{Chains, Outside, elapse, moment, answer, ask, act, relayer}
use podseq.Bridge.Chains.Sound.{Stands, Stands-kept, Extends, Sound}
use podseq.Bridge.Chains.Updates.{Later, Later-trans}
use podseq.Bridge.Chains.Moments.{elapse-Later}

-- How the L2 spells a status and a word, and how an address is read back.
pub record Spells (o : Outside) : Type 0 where
  pub failed_status : same_bytes (trim_0x (o.status_text false)) (49 ∷ []) ≡ false
  pub last_word :
      (t : Token) (low : Bytes)
      → slice 24 32 (o.encode_word last_minted_deposit_nonce t) ≡ ok low
      → from_be_bytes 0 low ≡ t.last_minted_deposit_nonce
  pub address_read : (a : ℕ) → o.spelling.parse_address (o.spelling.print_address a) ≡ ok a
  pub hex_read : (b : Bytes) → o.spelling.hex_decode (o.spelling.hex_encode b) ≡ ok b
  pub any_word : (t : Token) → last_is_set (o.encode_word minted_any t) ≡ t.minted_any

-- Every token of a registry is there, and of the coin type that it stands for.
abbrev pub EntriesFine : Outside → Chains → List (Bytes × ℕ) → Type 0
EntriesFine o w es = All (λ e. Stands o e.0 e.1 w) es

abbrev pub RegistryFine : Outside → TokenRegistry → Chains → Type 0
RegistryFine o tokens w = EntriesFine o w tokens.by_coin_type

EntriesFine-kept :
    {w w' : Chains} (o : Outside) (es : List (Bytes × ℕ))
    → Extends w w'
    → EntriesFine o w es
    → EntriesFine o w' es
EntriesFine-kept o [] g h = tt
EntriesFine-kept o (e ∷ es) g (h, hs) = (Stands-kept o e.0 e.1 g h, EntriesFine-kept o es g hs)

pub RegistryFine-kept :
    {w w' : Chains} (o : Outside) (tokens : TokenRegistry)
    → Extends w w'
    → RegistryFine o tokens w
    → RegistryFine o tokens w'
RegistryFine-kept o tokens g h = EntriesFine-kept o tokens.by_coin_type g h

-- Cursors that a relayer may go on from.
abbrev pub CursorsFine : Outside → ℕ → Chains → Cursors → Type 0
CursorsFine o high w c =
    (c.next_deposit_nonce ≤ high)
    × ((tokens : TokenRegistry)
        → from_snapshot o.spelling c.tokens ≡ ok tokens
        → RegistryFine o tokens w)

pub CursorsFine-kept :
    {w w' : Chains} (o : Outside) (high : ℕ) (c : Cursors)
    → Extends w w'
    → CursorsFine o high w c
    → CursorsFine o high w' c
CursorsFine-kept o high c g (l, f) = (l, λ tokens e. RegistryFine-kept o tokens g (f tokens e))

-- A fact that stays.
abbrev pub Kept : (Chains → Type 0) → Type 0
Kept F = (w w' : Chains) → Extends w w' → F w → F w'

module _ (o : Outside) where
  pub record Good (high : ℕ) (st : State Chains) : Type 0 where
    pub chains : Sound o high st.world
    pub cursors_fine : CursorsFine o high st.world st.cursors
    pub registry : RegistryFine o st.tokens st.world
    pub filed : (c : Cursors) → st.world.file ≡ some c → CursorsFine o high st.world c

  -- The relayer is at the deposit `n`, and `F` is known of the chains.
  abbrev pub At : ℕ → ℕ → (Chains → Type 0) → State Chains → Type 0
  At high n F st = Good high st × (st.cursors.next_deposit_nonce ≡ n) × F st.world

  pub Good-Later :
      {high : ℕ} (st : State Chains) (w : Chains)
      → Good high st
      → Later o high st.world w
      → Good high (record st { world = w })
  Good-Later {high} st w g (s, x) = record {
    chains = s;
    cursors_fine = CursorsFine-kept o high st.cursors x g.cursors_fine;
    registry = RegistryFine-kept o st.tokens x g.registry;
    filed = λ c e. CursorsFine-kept o high c x (g.filed c (sym x.file_kept ∙ e));
  }

  module _ (high n : ℕ) (F : Chains → Type 0) (kept : Kept F) where
    pub At-Later :
        (st : State Chains) (w : Chains)
        → At high n F st
        → Later o high st.world w
        → At high n F (record st { world = w })
    At-Later st w (g, c, f) l = (Good-Later st w g l, c, kept st.world w l.1 f)

    Reply :
        {A : Type 0} → (A → Chains → Type 0) → State Chains → Result (Unit {0}) A × Chains → Type 0
    Reply G st (ok a, w) = At high n F (record st { world = w }) × G a w
    Reply G st (err _, w) = At high n F (record st { world = w })

    Reply-Post :
        {A : Type 0} (G : A → Chains → Type 0) (st : State Chains) (m : Call Chains (Unit {0}) A)
        (x : Result (Unit {0}) A × Chains)
        → Reply G st x
        → Post
            (λ a. At high n (λ w. F w × G a w))
            (λ _. At high n F)
            (request (relayer o) (λ _. x) st)
    unfolding request on_world within focus Reply
    Reply-Post G st m (ok a, w) ((g, c, f), h) = (g, c, (f, h))
    Reply-Post G st m (err _, w) p = p

    answer-Reply :
        {A : Type 0} (G : A → Chains → Type 0) (st : State Chains) (b : Bool) (a : A) (w : Chains)
        → At high n F (record st { world = w })
        → G a w
        → Reply G st (answer o b a w)
    unfolding answer Reply
    answer-Reply G st true a w p h = (p, h)
    answer-Reply G st false a w p h = p

    -- A request that reads gives what the chains make of its answer.
    pub Ensures-ask :
        {A : Type 0} (f : Chains → A) (G : A → Chains → Type 0)
        → ((w : Chains) → Sound o high w → F w → G (f w) w)
        → Ensures
            (At high n F)
            (request (relayer o) (ask o f))
            (λ a. At high n (λ w. F w × G a w))
            (λ _. At high n F)
    unfolding ask request on_world focus within
    Ensures-ask f G gives = record {
      holds = λ st p.
          let w = elapse o st.world in
          let l = elapse-Later o st.world p.0.chains in
          let q = At-Later st w p l in
          Reply-Post G st (ask o f) (ask o f st.world)
            (answer-Reply G st (moment o st.world).answered (f w) w q (gives w l.0 q.2));
    }

    effect-Reply :
        {A : Type 0} (G : A → Chains → Type 0) (st : State Chains) (accepted answered : Bool)
        (x : A × Chains) (w : Chains)
        → At high n F (record st { world = w })
        → At high n F (record st { world = x.1 })
        → G x.0 x.1
        → Reply G st (if accepted then answer o answered x.0 x.1 else (err tt, w))
    unfolding Reply
    effect-Reply G st true b (a, w') w p q h = answer-Reply G st b a w' q h
    effect-Reply G st false b x w p q h = p

    -- A request that changes the chains, and may do so without an answer.
    pub Ensures-act :
        {A : Type 0} (f : Chains → A × Chains) (G : A → Chains → Type 0)
        → ((w : Chains) → Sound o high w → F w → Later o high w (f w).1 × G (f w).0 (f w).1)
        → Ensures
            (At high n F)
            (request (relayer o) (act o f))
            (λ a. At high n (λ w. F w × G a w))
            (λ _. At high n F)
    unfolding act request on_world focus within
    Ensures-act f G gives = record {
      holds = λ st p.
          let w = elapse o st.world in
          let l = elapse-Later o st.world p.0.chains in
          let q = At-Later st w p l in
          let h = gives w l.0 q.2 in
          Reply-Post G st (act o f) (act o f st.world) (
            effect-Reply G st (moment o st.world).accepted (moment o st.world).answered (f w) w q
              (At-Later st (f w).1 p (Later-trans o l h.0)) h.1);
    }
