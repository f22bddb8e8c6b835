-- ===== src/Tests/Setting.antt =====
-- A run of the setup on a contract with one provider.
use community_storage.Base.{
  ◌==◌, if◌then◌else◌, ℕ, ◌≡◌, refl, String, false, true, none, some, [], ◌∷◌, length, includes,
  IsDistinct, arith, String_discrete,
}
use community_storage.Scripts.Setup.{Provider, Environment, Settings, load_providers, run_setup}
use community_storage.Scripts.Setup.Contract.{IsOpen}
use community_storage.Scripts.Setup.One.{SameProvider}
use community_storage.Scripts.Setup.Registered.{addresses_of, AllReady, run_setup-AllReady}
use community_storage.Tests.{contract, by, at_work}
use community_storage.Tests.Codec.{codec}
use community_storage.Tests.Clients.{told}

abbrev settings : Settings
settings = record {
  storage_gb = 50;
  context_of = λ p. by p.address 9;
  endpoint_of = λ p. "http://localhost";
}

-- The first provider is in the environment, the second has to be generated.
abbrev dotenv : Environment
dotenv i = if i == 1 then (some "north", some "key") else (none, none)

abbrev generated : ℕ → Provider
generated i = record { index = i; address = "east"; private_key = "new key" }

loaded :
    load_providers dotenv generated 2 true
    ≡ record { index = 1; address = "north"; private_key = "key" }
      ∷ record { index = 2; address = "east"; private_key = "new key" }
      ∷ []
unfolding load_providers String_discrete
loaded = refl

distinct : IsDistinct (addresses_of (load_providers dotenv generated 2 true))
distinct = rw loaded (different, (refl, tt))
  where
    different : includes ("east" ∷ []) "north" ≡ false
    different = unfold String_discrete in refl

pub at_work-IsOpen : IsOpen 50 at_work
unfolding contract
at_work-IsOpen = record {
  running = refl;
  above = omega arith;
  below = omega arith;
  keyed = λ a n e. ground arith;
}

run_setup-AllReady_example :
    let providers = load_providers dotenv generated 2 true in
    (length providers ≡ 2)
    × AllReady settings at_work (run_setup codec told settings dotenv generated 2 at_work) providers
    × ((a : String)
        → includes (addresses_of providers) a ≡ false
        → SameProvider a at_work (run_setup codec told settings dotenv generated 2 at_work))
run_setup-AllReady_example =
    run_setup-AllReady codec told settings dotenv generated 2 at_work (λ p. refl) at_work-IsOpen
      distinct
