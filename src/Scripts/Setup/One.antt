-- ===== src/Scripts/Setup/One.antt =====
-- Setting up one provider.
use mathlib.Core.Option
use community_storage.Base.{
  subst, ◌<◌, ◌≡◌, ◌≢◌, refl, sym, ap, ◌∙◌, String, Bool, true, some, [], length, is_some,
  length-append, ok, arith, Option-cases, inl, inr, String_discrete, get_or,
}
use mathlib.Core.List.{append-nil}
use community_storage.Structs.{StorageNode, new_node}
use community_storage.Structs.Args.{ArgsCodec}
use community_storage.State.{State, Error, ProviderMetadata}
use community_storage.Registry.Nodes.{registered, reallocated}
use community_storage.Scripts.Setup.{
  Provider, Settings, is_registered, register_or_update, set_up, then_metadata, settle,
}
use community_storage.Front.Client.Rpc.{served}
use community_storage.Front.Client.Decode.{argument-string}
use community_storage.Structs.Serialize.{serialize_node}
use community_storage.Structs.RoundTrip.Node.{serialize_node-append}
use community_storage.Registry.Views.{get_node_info}
use community_storage.Registry.Views.Bytes.{node_info_bytes}
use community_storage.Scripts.Setup.Contract.{
  NodesKeyed, IsOpen, Wrote, registered-Wrote, reallocated-Wrote, register-open, update-open,
  same_pause, published, publish-open, published_fields, same_settings,
}

-- A node that is new is active; one that was there stays as active as it was.
abbrev pub stays_active : State → String → Bool
stays_active s a = get_or true (Option.map (λ n. n.active) (s.nodes a))

-- The provider is stored with the allocation and the endpoint of the setup, and is as active as it
-- was in `s`.
pub record IsReady (set : Settings) (p : Provider) (s u : State) : Type 0 where
  pub node : StorageNode
  pub stored : u.nodes p.address ≡ some node
  pub allocated : node.allocated_gb ≡ set.storage_gb
  pub activity : node.active ≡ stays_active s p.address
  pub published :
      u.provider_meta p.address ≡ some (record { endpoint = set.endpoint_of p; p2p_addrs = [] })

-- The node and the metadata under an address are the same.
pub record SameProvider (a : String) (s u : State) : Type 0 where
  pub same_node : u.nodes a ≡ s.nodes a
  pub same_metadata : u.provider_meta a ≡ s.provider_meta a

module _ (C : ArgsCodec) (text : Error → String) where
  pub serialized-length : (n : StorageNode) → 0 < length (serialize_node C n)
  serialized-length n =
      let e = ap length (append-nil (serialize_node C n)) in
      let f = ap length (serialize_node-append C n []) in
      omega (arith, length-append {0} (C.enc_string n.address) _, C.length-enc_string n.address)

  pub is_registered-served :
      (s : State) (a : String) → is_registered C (served C text s) a ≡ is_some (s.nodes a)
  unfolding is_registered served node_info_bytes get_node_info
  is_registered-served s a = elim (Option-cases (s.nodes a)) [
    | inl e ↦ rw (argument-string C a, e) refl
    | inr (n, e) ↦ rw (argument-string C a, e) (ground (arith, serialized-length n))
  ]

module _ (C : ArgsCodec) (text : Error → String) (set : Settings) (p : Provider) (s : State)
    (mine : (set.context_of p).caller ≡ p.address) (open_ : IsOpen set.storage_gb s) where
  -- The first call of the setup succeeds, whether the provider is new or not.
  register_or_update-Wrote :
      (n : StorageNode) × (u : State) × (register_or_update C text set p s ≡ ok u)
      × Wrote p.address n s u
      × (n.address ≡ p.address)
      × (n.allocated_gb ≡ set.storage_gb)
      × (n.active ≡ stays_active s p.address)
  unfolding register_or_update
  register_or_update-Wrote =
      let ctx = set.context_of p in
      elim (Option-cases (s.nodes p.address)) [
        | inl e ↦ (
          new_node ctx.caller set.storage_gb ctx.current_period,
          registered ctx set.storage_gb (set.endpoint_of p) [] s,
          rw (is_registered-served C text s p.address, e)
              (register-open ctx set.storage_gb (set.endpoint_of p) s open_ (rw mine e)),
          subst
              (λ a.
                Wrote a (new_node ctx.caller set.storage_gb ctx.current_period) s
                  (registered ctx set.storage_gb (set.endpoint_of p) [] s))
              mine (registered-Wrote ctx set.storage_gb (set.endpoint_of p) s),
          mine,
          refl,
          rw e refl,
        )
        | inr (n, e) ↦ (
          record n { allocated_gb = set.storage_gb },
          reallocated ctx set.storage_gb n s,
          rw (is_registered-served C text s p.address, e)
              (update-open ctx set.storage_gb n s open_ (rw mine e)),
          subst
              (λ a.
                Wrote a (record n { allocated_gb = set.storage_gb }) s
                  (reallocated ctx set.storage_gb n s))
              mine
              (reallocated-Wrote ctx set.storage_gb n s (open_.keyed p.address n e ∙ sym mine)),
          open_.keyed p.address n e,
          refl,
          rw e refl,
        )
      ]

  -- So does the second one.
  set_up-published :
      let first = register_or_update-Wrote in
      set_up C text set p s ≡ published (set.context_of p) (set.endpoint_of p) first.1
  unfolding set_up
  set_up-published =
      let (n, u, done, w, own, gb, activity) = register_or_update-Wrote in
      let there : u.nodes (set.context_of p).caller ≡ some n = rw mine w.node_there in
      let second =
        publish-open (set.context_of p) (set.endpoint_of p) u n
          (same_pause s u w.paused_same open_.running) there in
      ap (then_metadata C text set p s) done ∙ ap (settle u) second

  pub set_up-IsReady : IsReady set p s (set_up C text set p s)
  set_up-IsReady =
      let (n, u, done, w, own, gb, activity) = register_or_update-Wrote in
      let f = published_fields (set.context_of p) (set.endpoint_of p) u in
      let v = published (set.context_of p) (set.endpoint_of p) u in
      let meta : ProviderMetadata = record { endpoint = set.endpoint_of p; p2p_addrs = [] } in
      rw set_up-published (record {
        node = n;
        stored = ap (λ m. m p.address) f.nodes_kept ∙ w.node_there;
        allocated = gb;
        activity = activity;
        published = subst (λ a. v.provider_meta a ≡ some meta) mine f.own_metadata;
      })

  pub set_up-others : (a : String) → a ≢ p.address → SameProvider a s (set_up C text set p s)
  set_up-others a ne =
      let (n, u, done, w, own, gb, activity) = register_or_update-Wrote in
      let f = published_fields (set.context_of p) (set.endpoint_of p) u in
      rw set_up-published (record {
        same_node = ap (λ m. m a) f.nodes_kept ∙ w.nodes_same a ne;
        same_metadata = f.others_metadata a (λ same. ne (same ∙ mine)) ∙ w.metadata_same a ne;
      })

  keyed_there :
      (u v : State) (n : StorageNode)
      → Wrote p.address n s u
      → n.address ≡ p.address
      → v.nodes ≡ u.nodes
      → NodesKeyed v
  keyed_there u v n w own kept a m e = elim (String_discrete a p.address) [
    | yes same ↦
        let here : u.nodes p.address ≡ some m =
          subst (λ b. u.nodes b ≡ some m) same (ap (λ f. f a) (sym kept) ∙ e) in
        let both : some n ≡ some m = sym w.node_there ∙ here in
        let equal : n ≡ m = cc in sym (ap (λ x. x.address) equal) ∙ own ∙ sym same
    | no other ↦ open_.keyed a m (sym (w.nodes_same a other) ∙ ap (λ f. f a) (sym kept) ∙ e)
  ]

  pub set_up-IsOpen : IsOpen set.storage_gb (set_up C text set p s)
  set_up-IsOpen =
      let (n, u, done, w, own, gb, activity) = register_or_update-Wrote in
      let f = published_fields (set.context_of p) (set.endpoint_of p) u in
      let v = published (set.context_of p) (set.endpoint_of p) u in
      rw set_up-published (
        same_settings s v (f.paused_kept ∙ w.paused_same) (f.config_kept ∙ w.config_same) open_
          (keyed_there u v n w own f.nodes_kept))
