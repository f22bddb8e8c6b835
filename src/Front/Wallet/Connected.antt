-- ===== src/Front/Wallet/Connected.antt =====
-- When the page counts as connected, and how a connection comes back when the page is loaded again.
use community_storage.Base.{
  Option, ◌≡◌, ◌∙◌, ap, sym, refl, String, none, some, [], ◌∷◌, is_same, is_some, arith, Bool-cases,
  inl, inr,
}
use mathlib.Core.Option
use community_storage.Front.Wallet

-- The page as the events since it was loaded have left it.
pub data Run (stored : Option (String × String)) : Wallet.WalletState → Type 0 where
  start : Run stored (Wallet.loaded stored)
  next :
      {s : Wallet.WalletState} (e : Wallet.Event) → Run stored s → Run stored (Wallet.happens e s)

-- A wallet is held exactly while the page counts as connected, so is an account, and the address is
-- that of the account.
pub record IsConsistent (s : Wallet.WalletState) : Type 0 where
  pub wallet_held : is_some s.wallet ≡ s.connected
  pub account_held : is_some s.account ≡ s.connected
  pub address_known : s.address ≡ Option.map (λ a. a.address) s.account

module _ {s : Wallet.WalletState} (c : IsConsistent s) where
  connect_to-IsConsistent :
      (w : Wallet.Wallet) (acc : Wallet.Account) → IsConsistent (Wallet.connect_to w acc s)
  connect_to-IsConsistent w acc = record {
    wallet_held = refl;
    account_held = refl;
    address_known = refl;
  }

  unchanged :
      {u : Wallet.WalletState}
      → u.wallet ≡ s.wallet
      → u.account ≡ s.account
      → u.address ≡ s.address
      → u.connected ≡ s.connected
      → IsConsistent u
  unchanged w a d k = record {
    wallet_held = ap is_some w ∙ c.wallet_held ∙ sym k;
    account_held = ap is_some a ∙ c.account_held ∙ sym k;
    address_known = d ∙ c.address_known ∙ ap (Option.map (λ x. x.address)) (sym a);
  }

  select-IsConsistent :
      (acc : Wallet.Account) (pending wallet : Option Wallet.Wallet)
      → s.wallet ≡ wallet
      → IsConsistent (Wallet.select_account acc pending wallet s)
  select-IsConsistent acc (some w) wallet e = record {
    wallet_held = refl;
    account_held = refl;
    address_known = refl;
  }
  select-IsConsistent acc none (some w) e =
      let held = c.wallet_held in
      record { wallet_held = held; account_held = ground arith; address_known = refl }
  select-IsConsistent acc none none e = c

  happens-IsConsistent : (e : Wallet.Event) → IsConsistent (Wallet.happens e s)
  unfolding Wallet.happens
  happens-IsConsistent (Wallet.restored w acc) = connect_to-IsConsistent w acc
  happens-IsConsistent Wallet.restore_failed = unchanged refl refl refl refl
  happens-IsConsistent Wallet.picker_opened = unchanged refl refl refl refl
  happens-IsConsistent (Wallet.wallets_found []) = unchanged refl refl refl refl
  happens-IsConsistent (Wallet.wallets_found (w ∷ ws)) = unchanged refl refl refl refl
  happens-IsConsistent (Wallet.wallets_failed m) = unchanged refl refl refl refl
  happens-IsConsistent Wallet.picker_closed = unchanged refl refl refl refl
  happens-IsConsistent Wallet.accounts_closed = unchanged refl refl refl refl
  happens-IsConsistent Wallet.accounts_asked = unchanged refl refl refl refl
  happens-IsConsistent (Wallet.accounts_found []) = c
  happens-IsConsistent (Wallet.accounts_found (a ∷ [])) = c
  happens-IsConsistent (Wallet.accounts_found (a ∷ b ∷ rest)) = unchanged refl refl refl refl
  happens-IsConsistent (Wallet.accounts_failed m) = unchanged refl refl refl refl
  happens-IsConsistent (Wallet.account_selected acc) = elim (Bool-cases (is_same acc.address "")) [
    | inl e ↦ rw e c
    | inr e ↦ rw e (select-IsConsistent acc s.pending_wallet s.wallet refl)
  ]
  happens-IsConsistent Wallet.connect_started = unchanged refl refl refl refl
  happens-IsConsistent Wallet.connect_refused = unchanged refl refl refl refl
  happens-IsConsistent (Wallet.connect_accounts w []) = unchanged refl refl refl refl
  happens-IsConsistent (Wallet.connect_accounts w (a ∷ [])) = record {
    wallet_held = refl;
    account_held = refl;
    address_known = refl;
  }
  happens-IsConsistent (Wallet.connect_accounts w (a ∷ b ∷ rest)) = unchanged refl refl refl refl
  happens-IsConsistent (Wallet.connect_failed m) = unchanged refl refl refl refl
  happens-IsConsistent Wallet.disconnect_started = unchanged refl refl refl refl
  happens-IsConsistent Wallet.disconnected = record {
    wallet_held = refl;
    account_held = refl;
    address_known = refl;
  }

-- Whatever happens since the page was loaded, in whatever order the wallet answers: the page holds a
-- wallet exactly while it counts as connected, and so an account, and the address that it shows is
-- that of the account.
pub Run-IsConsistent :
    {stored : Option (String × String)} {s : Wallet.WalletState} → Run stored s → IsConsistent s
Run-IsConsistent start = record { wallet_held = refl; account_held = refl; address_known = refl }
Run-IsConsistent (next e r) = happens-IsConsistent (Run-IsConsistent r) e
