-- ===== src/Tests/Wallets.antt =====
-- A wallet that is connected, and connected again.
use community_storage.Base.{
  ◌≡◌, ◌≢◌, refl, true, false, none, some, [], ◌∷◌, arith, includes, String_discrete,
}
use text.Mathlib.TextEquality.{eq_iff}
use community_storage.Front.Wallet
use community_storage.Front.Wallet.{Account, Wallets, WalletState, happens, loaded}
use community_storage.Front.Wallet.Connected.{Run, start, next, IsConsistent, Run-IsConsistent}
use community_storage.Front.Wallet.Restored.{connect-restore}

abbrev bearby : Wallet.Wallet
bearby = record { name = "BEARBY" }

abbrev mine : Account
mine = record { address = "AU1" }

abbrev other : Account
other = record { address = "AU2" }

abbrev env : Wallets
env = record {
  upper = λ s. s;
  lower = λ s. s;
  contains = λ s t. false;
  get_wallets = bearby ∷ [];
  connect = λ w. true;
  accounts = λ w. other ∷ mine ∷ [];
}

-- The user opens the picker, connects a wallet with two accounts, and chooses one.
abbrev connected : WalletState
connected = happens (Wallet.account_selected mine) (
    happens (Wallet.connect_accounts bearby (other ∷ mine ∷ []))
      (happens Wallet.connect_started (happens Wallet.picker_opened (loaded none))))

connected-Run : Run none connected
connected-Run = next (Wallet.account_selected mine) (
    next (Wallet.connect_accounts bearby (other ∷ mine ∷ []))
      (next Wallet.connect_started (next Wallet.picker_opened start)))

Run-IsConsistent_example : IsConsistent connected
Run-IsConsistent_example = Run-IsConsistent connected-Run

address_shown : (connected.connected ≡ true) × (connected.address ≡ some "AU1")
unfolding happens String_discrete
address_shown = (refl, refl)

connect-restore_example :
    let stored = (happens (Wallet.connect_accounts bearby (mine ∷ [])) (loaded none)).stored in
    (e : Wallet.Event) × (Wallet.restore env stored ≡ some e)
    × ((happens e (loaded stored)).connected ≡ true)
    × ((happens e (loaded stored)).wallet ≡ some bearby)
    × ((happens e (loaded stored)).address ≡ some "AU1")
connect-restore_example =
    connect-restore env (loaded none) bearby mine named addressed found refl (λ x h e. e) listed
  where
    named : bearby.name ≢ ""
    named h = ground (arith, eq_iff "BEARBY" "")

    addressed : mine.address ≢ ""
    addressed h = ground (arith, eq_iff "AU1" "")

    found : Wallet.find_wallet env bearby.name env.get_wallets ≡ some bearby
    found = unfold String_discrete in refl

    listed : includes ("AU2" ∷ "AU1" ∷ []) "AU1" ≡ true
    listed = unfold String_discrete in refl
