-- ===== src/Front/Wallet/Restored.antt =====
-- A connection that comes back when the page is loaded again.
use mathlib.Core.List.{map}
use community_storage.Base.{
  ◌≡◌, ◌≢◌, refl, ap, ◌∙◌, String, true, some, List, [], ◌∷◌, is_same, includes, arith, Bool-cases,
  inl, inr,
}
use community_storage.Front.Wallet
use community_storage.Front.Wallet.{Account, WalletState, Wallets, happens, find_account, loaded}

abbrev addresses : List Account → List String
addresses = map (λ a. a.address)

module _ (env : Wallets) (addr : String) where
  find_account-found :
      (first : Account) (accounts : List Account)
      → ((x : String)
          → includes (addresses accounts) x ≡ true
          → env.lower x ≡ env.lower addr
          → x ≡ addr)
      → includes (addresses accounts) addr ≡ true
      → (find_account env addr first accounts).address ≡ addr
  find_account-found first [] only h = cc
  find_account-found first (a ∷ rest) only h =
      elim (Bool-cases (is_same (env.lower a.address) (env.lower addr))) [
        | inl e ↦ rw e (only a.address (ground arith) (ground arith))
        | inr e ↦ rw e (find_account-found first rest (λ x k. only x (ground arith)) (ground arith))
      ]

  restored_by-found :
      (w : Wallet.Wallet) (accounts : List Account)
      → ((x : String)
          → includes (addresses accounts) x ≡ true
          → env.lower x ≡ env.lower addr
          → x ≡ addr)
      → includes (addresses accounts) addr ≡ true
      → (a : Account) × (Wallet.restored_by env addr w accounts ≡ some (Wallet.restored w a))
        × (a.address ≡ addr)
  restored_by-found w [] only h = cc
  restored_by-found w (a ∷ rest) only h =
      (find_account env addr a (a ∷ rest), refl, find_account-found a (a ∷ rest) only h)

get_stored_wallet-some :
    (n a : String) → n ≢ "" → a ≢ "" → Wallet.get_stored_wallet (some (n, a)) ≡ some (n, a)
get_stored_wallet-some n a hn ha = ground (arith, hn, ha)

-- A wallet with a single account that was connected is connected again when the page is loaded, with
-- the same address: under the name that was stored the wallet is found first, it connects, it still
-- lists the account, no two of its addresses differ in case only, and neither its name nor the
-- address is empty.
pub connect-restore :
    (env : Wallets) (s : WalletState) (w : Wallet.Wallet) (acc : Account)
    → w.name ≢ ""
    → acc.address ≢ ""
    → Wallet.find_wallet env w.name env.get_wallets ≡ some w
    → env.connect w ≡ true
    → ((x : String)
        → includes (addresses (env.accounts w)) x ≡ true
        → env.lower x ≡ env.lower acc.address
        → x ≡ acc.address)
    → includes (addresses (env.accounts w)) acc.address ≡ true
    → let stored = (happens (Wallet.connect_accounts w (acc ∷ [])) s).stored in
      (e : Wallet.Event) × (Wallet.restore env stored ≡ some e)
      × ((happens e (loaded stored)).connected ≡ true)
      × ((happens e (loaded stored)).wallet ≡ some w)
      × ((happens e (loaded stored)).address ≡ some acc.address)
unfolding happens Wallet.restore
connect-restore env s w acc named addressed found connects only listed =
    let (a, e, same) = restored_by-found env acc.address w (env.accounts w) only listed in
    (
      Wallet.restored w a,
      ap (Wallet.restore_stored env) (get_stored_wallet-some w.name acc.address named addressed)
          ∙ ap (Wallet.restore_with env acc.address) found
          ∙ rw connects e,
      refl,
      refl,
      ap some same,
    )
