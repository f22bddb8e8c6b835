-- ===== src/Front/Client/Providers.antt =====
-- The list of storage providers that the front end offers, against the state of the contract.
use mathlib.Core.List.{filter_map}
use mathlib.Core.Option
use community_storage.Base.{
  ℕ, zero, suc, ◌⊎◌, ◌-◌, ltb, is_some, ◌>>=◌, ◌≡◌, refl, ap, String, true, Option, none, some,
  List, [], ◌∷◌, arith, get_or, ok, Bool-cases, inl, inr, if◌then◌else◌, length, ◌==◌, includes,
  u64_mod, ◌<◌,
}
use community_storage.Structs.{StorageNode}
use community_storage.Structs.Args.{ArgsCodec}
use community_storage.Structs.RoundTrip.Node.{IsStorageNodeU64}
use community_storage.State.{State, Error, ProviderMetadata}
use community_storage.Registry.{get_node_index, get_total_nodes}
use community_storage.Registry.Calls.{Reach, steps}
use community_storage.Registry.Calls.Slots.{Reach-IsIndexed}
use community_storage.Registry.Calls.Indexes.{Reach-IsListed}
use community_storage.Registry.Nodes.Slots.{is_active}
use community_storage.Front.Client
use community_storage.Front.Client.{
  addresses_from, StorageProvider, text_or_none, list_or_none, no_metadata, provider_entry, pushed,
  list_providers, provider_addresses, get_storage_providers,
}
use community_storage.Front.Client.Rpc.{served}
use community_storage.Front.Client.Decode.{shown}
use community_storage.Front.Client.Served.{
  node_info-served, provider_metadata-served, registered_addresses-served, total_nodes-served,
}

-- What an active node offers: all that it has allocated, and its metadata where it has any.
abbrev pub offer_of : String → ProviderMetadata → Option StorageNode → Option StorageProvider
offer_of address metadata none = none
offer_of address metadata (some n) =
    if n.active
    then some (record {
      address = address;
      allocated_gb = n.allocated_gb;
      used_gb = 0;
      available_gb = n.allocated_gb;
      endpoint = text_or_none metadata.endpoint;
      p2p_addrs = list_or_none metadata.p2p_addrs;
    })
    else none

abbrev pub offer : State → String → Option StorageProvider
offer s address = offer_of address (get_or no_metadata (s.provider_meta address)) (s.nodes address)

-- The numbers of every stored node fit 64 bits.
abbrev pub AllNodesU64 : State → Type 0
AllNodesU64 s = (a : String) (n : StorageNode) → s.nodes a ≡ some n → IsStorageNodeU64 n

all_available : (n : ℕ) → (if ltb 0 (n - 0) then n - 0 else n) ≡ n
all_available n = ground arith

module _ (C : ArgsCodec) (text : Error → String) (s : State) (fits : AllNodesU64 s) where
  pushed-offer_of :
      (a : String) (o : Option StorageNode) (rest : List StorageProvider)
      → pushed C (served C text s) a (Option.map shown o) rest
        ≡ Option.Option-elim
            (offer_of a (get_or no_metadata (s.provider_meta a)) o)
            rest
            (λ p. p ∷ rest)
  unfolding pushed provider_entry Option.Option-elim
  pushed-offer_of a none rest = refl
  pushed-offer_of a (some n) rest = elim (Bool-cases n.active) [
    | inl e ↦ rw (e, provider_metadata-served C text s a, all_available n.allocated_gb) refl
    | inr e ↦ rw e refl
  ]

  list_providers-served :
      (addresses : List String)
      → list_providers C (served C text s) addresses ≡ ok (filter_map (offer s) addresses)
  unfolding list_providers filter_map
  list_providers-served [] = refl
  list_providers-served (a ∷ rest) =
      rw (node_info-served C text s a (fits a), list_providers-served rest)
        (ap ok (pushed-offer_of a (s.nodes a) (filter_map (offer s) rest)))

  addresses_or_indexes :
      (l : List String)
      → (l ≡ [] → get_total_nodes s ≡ 0)
      → (if length l == 0
          then (Client.get_total_nodes C (served C text s) >>= λ n.
              addresses_from C (served C text s) n 0)
          else ok l)
        ≡ ok l
  unfolding addresses_from
  addresses_or_indexes [] h =
      let e = h refl in rw (total_nodes-served C text s (omega arith), e) refl
  addresses_or_indexes (x ∷ xs) h = ground arith

  -- With at least one address in the list, or no node counted, no index is read.
  provider_addresses-served :
      (get_node_index s ≡ [] → get_total_nodes s ≡ 0)
      → provider_addresses C (served C text s) ≡ ok (get_node_index s)
  unfolding provider_addresses
  provider_addresses-served h =
      rw (registered_addresses-served C text s) (addresses_or_indexes (get_node_index s) h)

-- Where no address is listed, no slot is in use.
unlisted-total :
    {s : State} (r : Reach s) → steps r < u64_mod → get_node_index s ≡ [] → get_total_nodes s ≡ 0
unlisted-total {s} r few e = elim (Nat-cases (get_total_nodes s)) [
  | inl z ↦ z
  | inr pos ↦
      let (a, at_, active) = (Reach-IsIndexed r few).0.filled 0 pos in
      let listed = (Reach-IsListed r).nodes_listed a in absurd (stored_node s a e listed active)
]
  where
    Nat-cases : (n : ℕ) → (n ≡ 0) ⊎ (0 < n)
    Nat-cases zero = inl refl
    Nat-cases (suc n) = inr (omega arith)

    stored_node :
        (u : State) (a : String)
        → get_node_index u ≡ []
        → includes (get_node_index u) a ≡ is_some (u.nodes a)
        → is_active u a ≡ true
        → ⊥
    stored_node u a none_ listed active = ground arith

-- On a chain at a state that fewer than 2^64 calls have made, the list of storage providers is the
-- list of the registered addresses, without those whose node is not active: for each of the others
-- what it has allocated, all of which is said to be available, and the endpoint and the addresses
-- that it has stored, where they are not empty. The numbers of every stored node fit 64 bits.
pub storage_providers-served :
    (C : ArgsCodec) (text : Error → String) {s : State} (r : Reach s)
    → steps r < u64_mod
    → AllNodesU64 s
    → get_storage_providers C (served C text s) ≡ ok (filter_map (offer s) (get_node_index s))
unfolding get_storage_providers
storage_providers-served C text {s} r few fits =
    rw (provider_addresses-served C text s fits (unlisted-total r few))
      (list_providers-served C text s fits (get_node_index s))
