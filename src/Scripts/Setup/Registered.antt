-- ===== src/Scripts/Setup/Registered.antt =====
-- What a run of the setup leaves for each provider.
use mathlib.Core.Option
use community_storage.Base.{
  ℕ, zero, suc, ◌+◌, ◌≡◌, ◌≢◌, refl, sym, ap, ◌∙◌, String, true, false, none, some, List, [], ◌∷◌,
  length, arith, includes, IsDistinct, get_or,
}
use mathlib.Core.List.{map}
use community_storage.Structs.Args.{ArgsCodec}
use community_storage.State.{State, Error}
use community_storage.Scripts.Setup.{
  provider_at, with_provider, load_providers, Environment, load_from, run_setup, Provider, Settings,
  set_up, set_up_all,
}
use community_storage.Scripts.Setup.Contract.{IsOpen}
use community_storage.Scripts.Setup.One.{
  IsReady, SameProvider, set_up-IsReady, set_up-others, set_up-IsOpen,
}

abbrev pub addresses_of : List Provider → List String
addresses_of = map (λ p. p.address)

abbrev pub AllReady : Settings → State → State → List Provider → Type 0
AllReady set s u [] = Unit
AllReady set s u (p ∷ providers) = IsReady set p s u × AllReady set s u providers

-- An address outside of a list is none of its members.
head-ne :
    (a : String) (p : Provider) (rest : List Provider)
    → includes (addresses_of (p ∷ rest)) a ≡ false
    → (a ≢ p.address) × (includes (addresses_of rest) a ≡ false)
head-ne a p rest h = (λ same. ground arith, ground arith)

module _ (set : Settings) where
  IsReady-later :
      (p : Provider) (s u v : State)
      → SameProvider p.address u v
      → IsReady set p s u
      → IsReady set p s v
  IsReady-later p s u v same r = record {
    node = r.node;
    stored = same.same_node ∙ r.stored;
    allocated = r.allocated;
    activity = r.activity;
    published = same.same_metadata ∙ r.published;
  }

  AllReady-earlier :
      (a : String) (s t u : State) (providers : List Provider)
      → ((b : String) → b ≢ a → SameProvider b s t)
      → includes (addresses_of providers) a ≡ false
      → AllReady set t u providers
      → AllReady set s u providers
  AllReady-earlier a s t u [] same h r = tt
  AllReady-earlier a s t u (p ∷ rest) same h (r, later) =
      let (ne, outside) = head-ne a p rest h in
      let kept = same p.address (λ e. ne (sym e)) in
      (
        record {
          node = r.node;
          stored = r.stored;
          allocated = r.allocated;
          activity =
              r.activity ∙ ap (λ o. get_or true (Option.map (λ n. n.active) o)) kept.same_node;
          published = r.published;
        },
        AllReady-earlier a s t u rest same outside later,
      )

module _ (C : ArgsCodec) (text : Error → String) (set : Settings)
    (mine : (p : Provider) → (set.context_of p).caller ≡ p.address) where
  set_up_all-AllReady :
      (providers : List Provider) (s : State)
      → IsOpen set.storage_gb s
      → IsDistinct (addresses_of providers)
      → AllReady set s (set_up_all C text set providers s) providers
        × ((a : String)
            → includes (addresses_of providers) a ≡ false
            → SameProvider a s (set_up_all C text set providers s))
  unfolding set_up_all
  set_up_all-AllReady [] s o d = (tt, λ a h. record { same_node = refl; same_metadata = refl })
  set_up_all-AllReady (p ∷ rest) s o (fresh, d) =
      let s1 = set_up C text set p s in
      let (later, others) =
        set_up_all-AllReady rest s1 (set_up-IsOpen C text set p s (mine p) o) d in
      let same = set_up-others C text set p s (mine p) o in
      (
        (
          IsReady-later set p s s1 (set_up_all C text set rest s1) (others p.address fresh)
              (set_up-IsReady C text set p s (mine p) o),
          AllReady-earlier set p.address s s1 (set_up_all C text set rest s1) rest same fresh later,
        ),
        λ a h.
            let (ne, outside) = head-ne a p rest h in
            let one = same a ne in
            let more = others a outside in
            record {
              same_node = more.same_node ∙ one.same_node;
              same_metadata = more.same_metadata ∙ one.same_metadata;
            },
      )

length-load_from :
    (env : Environment) (generate : ℕ → Provider) (left i : ℕ)
    → length (load_from env generate true left i) ≡ left
unfolding load_from
length-load_from env generate zero i = refl
length-load_from env generate (suc left) i =
    provided (env i) ∙ ap suc (length-load_from env generate left (i + 1))
  where
    provided :
        (e : Option.Option String × Option.Option String)
        → length (
            with_provider
              (provider_at true generate i e)
              (load_from env generate true left (i + 1)))
          ≡ suc (length (load_from env generate true left (i + 1)))
    provided (some addr, some key) = ground arith
    provided (some addr, none) = refl
    provided (none, key) = refl

length-load_providers :
    (env : Environment) (generate : ℕ → Provider) (n : ℕ)
    → length (load_providers env generate n true) ≡ n
unfolding load_providers
length-load_providers env generate n = length-load_from env generate n 1

-- A run of the setup loads as many providers as are asked for, and afterwards each of them is stored
-- with the allocation that was set and its endpoint, active unless it was stored and inactive before;
-- all other providers are as before. The contract is not paused, the allocation lies within its
-- limits, every stored node stands under its address, each account calls from its address, and no
-- two providers share one.
pub run_setup-AllReady :
    (C : ArgsCodec) (text : Error → String) (set : Settings) (env : Environment)
    (generate : ℕ → Provider) (num_providers : ℕ) (s : State)
    → ((p : Provider) → (set.context_of p).caller ≡ p.address)
    → IsOpen set.storage_gb s
    → let providers = load_providers env generate num_providers true in
      IsDistinct (addresses_of providers)
      → (length providers ≡ num_providers)
        × AllReady set s (run_setup C text set env generate num_providers s) providers
        × ((a : String)
            → includes (addresses_of providers) a ≡ false
            → SameProvider a s (run_setup C text set env generate num_providers s))
unfolding run_setup
run_setup-AllReady C text set env generate num_providers s mine o d =
    let (ready, others) =
      set_up_all-AllReady C text set mine (load_providers env generate num_providers true) s o d in
    (length-load_providers env generate num_providers, ready, others)
