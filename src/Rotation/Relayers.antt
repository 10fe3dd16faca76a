-- ===== src/Rotation/Relayers.antt =====
-- Which key the bridge relayer signs with after a swap.
use podseq.Prelude.{ℕ, ◌≡◌, ◌≢◌, ◌⊎◌, inl, inr, none, some, arith}
use podseq.Rotation.Sinks.{
  SwapSinks, down, shared, swap_signers, build_client, start_relayer, relayer_failed, relayer_key,
}

module _ {K : Type 0} (derive_address : K → ℕ) (staged file_key : K) (s : SwapSinks K) where
  -- A swap while no relayer is being set up and the running one, if any, is in the cell leaves a
  -- relayer that is down or signs with the staged key.
  pub relayer_key-swap :
      s.building ≡ none
      → (s.relayer ≡ down) ⊎ ((s.relayer ≡ shared) × (s.sui_bridge ≢ none))
      → let t = swap_signers derive_address staged s in
        (relayer_key t ≡ none) ⊎ (relayer_key t ≡ some staged)
  unfolding swap_signers relayer_key
  relayer_key-swap b (inl e) = inl (ground arith)
  relayer_key-swap b (inr e) = inr (ground arith)

  -- A relayer built and started after a swap signs with the staged key, also in place of one that
  -- failed.
  pub relayer_key-after_swap :
      (relayer_key (start_relayer (build_client file_key (swap_signers derive_address staged s)))
        ≡ some staged)
      × (relayer_key (
            start_relayer
              (build_client file_key (relayer_failed (swap_signers derive_address staged s))))
          ≡ some staged)
  unfolding swap_signers relayer_key start_relayer build_client relayer_failed
  relayer_key-after_swap = (ground arith, ground arith)

  -- A swap that falls between the construction of the first client, while no key is adopted, and
  -- the end of that relayer's setup leaves the relayer on the key of the file.
  pub relayer_key-stale_setup :
      s.adopted_key ≡ none
      → s.sui_bridge ≡ none
      → relayer_key (start_relayer (swap_signers derive_address staged (build_client file_key s)))
        ≡ some file_key
  unfolding swap_signers relayer_key start_relayer build_client
  relayer_key-stale_setup h e = ground arith

  -- A swap that comes after the relayer in the cell failed and another was set up, while no key was
  -- adopted, leaves the running relayer on the key of the file.
  pub relayer_key-stale_restart :
      s.adopted_key ≡ none
      → s.sui_bridge ≢ none
      → relayer_key (
          swap_signers derive_address staged
            (start_relayer (build_client file_key (relayer_failed s))))
        ≡ some file_key
  unfolding swap_signers relayer_key start_relayer build_client relayer_failed
  relayer_key-stale_restart h e = ground arith
