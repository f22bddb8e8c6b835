-- ===== src/Front/Wallet.antt =====
-- The connection to a wallet: front/src/context/WalletContext.jsx. Each function of the context is cut
-- where it waits for the wallet; an event is what happens between two such places.
pub mod Connected
pub mod Restored
use community_storage.Base.{
  ℕ, String, Bool, true, false, ◌||◌, Option, none, some, List, [], ◌∷◌, if◌then◌else◌, is_same,
}

pub record Wallet : Type 0 where
  pub name : String

pub record Account : Type 0 where
  pub address : String

-- What the provider keeps, with the cell of the local storage: the wallet's name and the address.
pub record WalletState : Type 0 where
  pub address : Option String
  pub account : Option Account
  pub connected : Bool
  pub connecting : Bool
  pub error : Option String
  pub wallet : Option Wallet
  pub wallet_picker_open : Bool
  pub available_wallets : List Wallet
  pub account_picker_open : Bool
  pub available_accounts : List Account
  pub pending_wallet : Option Wallet
  pub stored : Option (String × String)

-- The page as it is loaded.
abbrev pub loaded : Option (String × String) → WalletState
loaded stored = record {
  address = none;
  account = none;
  connected = false;
  connecting = false;
  error = none;
  wallet = none;
  wallet_picker_open = false;
  available_wallets = [];
  account_picker_open = false;
  available_accounts = [];
  pending_wallet = none;
  stored = stored;
}

pub data Event : Type 0 where
  -- restore
  restored : Wallet → Account → Event
  restore_failed : Event
  -- openWalletPicker, before and after `getWallets`
  picker_opened : Event
  wallets_found : List Wallet → Event
  wallets_failed : String → Event
  -- closeWalletPicker, closeAccountPicker
  picker_closed accounts_closed : Event
  -- openAccountPicker, before and after `accounts`
  accounts_asked : Event
  accounts_found : List Account → Event
  accounts_failed : String → Event
  -- selectAccount
  account_selected : Account → Event
  -- connectWith, before and after `connect` and `accounts`
  connect_started : Event
  connect_refused : Event
  connect_accounts : Wallet → List Account → Event
  connect_failed : String → Event
  -- disconnect, before and after the wallet's own
  disconnect_started disconnected : Event

abbrev no_wallet_found : String
no_wallet_found = "Aucun wallet détecté. Installez Massa Station ou Bearby."

-- `setWallet`, `setAddress`, `setAccount` and `setConnected`.
abbrev pub connect_to : Wallet → Account → WalletState → WalletState
connect_to w acc s = record s {
  wallet = some w;
  address = some acc.address;
  account = some acc;
  connected = true;
}

abbrev pub set_wallets : List Wallet → WalletState → WalletState
set_wallets [] s = record s { error = some no_wallet_found; wallet_picker_open = false }
set_wallets (w ∷ ws) s = record s { available_wallets = w ∷ ws }

-- No account or one account opens no picker.
abbrev pub set_accounts : List Account → WalletState → WalletState
set_accounts [] s = s
set_accounts (a ∷ []) s = s
set_accounts (a ∷ b ∷ rest) s = record s {
  pending_wallet = none;
  available_accounts = a ∷ b ∷ rest;
  account_picker_open = true;
}

-- `selectAccount` by the wallet that waits for an account, and by the wallet that is connected.
abbrev pub select_account :
    Account → (pending_wallet wallet : Option Wallet) → WalletState → WalletState
select_account acc (some w) _ s = record (connect_to w acc s) {
  stored = some (w.name, acc.address);
  account_picker_open = false;
  available_accounts = [];
  pending_wallet = none;
  wallet_picker_open = false;
  available_wallets = [];
  connecting = false;
}
select_account acc none (some w) s = record s {
  stored = some (w.name, acc.address);
  address = some acc.address;
  account = some acc;
  account_picker_open = false;
  available_accounts = [];
}
select_account acc none none s = s

-- The end of `connectWith`, by the accounts of the wallet.
abbrev pub connect_with : Wallet → List Account → WalletState → WalletState
connect_with w [] s = record s { error = some "Aucun compte dans le wallet."; connecting = false }
connect_with w (acc ∷ []) s = record (connect_to w acc s) {
  stored = some (w.name, acc.address);
  wallet_picker_open = false;
  available_wallets = [];
  connecting = false;
}
connect_with w (a ∷ b ∷ rest) s = record s {
  wallet_picker_open = false;
  available_wallets = [];
  pending_wallet = some w;
  available_accounts = a ∷ b ∷ rest;
  account_picker_open = true;
}

unfoldable pub happens : Event → WalletState → WalletState
happens (restored w acc) s = connect_to w acc s
happens restore_failed s = record s { stored = none }
happens picker_opened s = record s {
  error = none;
  wallet_picker_open = true;
  available_wallets = [];
}
happens (wallets_found wallets) s = set_wallets wallets s
happens (wallets_failed message) s = record s { error = some message; wallet_picker_open = false }
happens picker_closed s = record s { wallet_picker_open = false; available_wallets = [] }
happens accounts_closed s = record s {
  account_picker_open = false;
  available_accounts = [];
  pending_wallet = none;
  connecting = false;
}
happens accounts_asked s = record s { error = none }
happens (accounts_found accounts) s = set_accounts accounts s
happens (accounts_failed message) s = record s { error = some message }
happens (account_selected acc) s =
    if is_same acc.address "" then s else select_account acc s.pending_wallet s.wallet s
happens connect_started s = record s { connecting = true; error = none }
happens connect_refused s = record s { error = some "Connexion refusée."; connecting = false }
happens (connect_accounts w accounts) s = connect_with w accounts s
happens (connect_failed message) s = record s { error = some message; connecting = false }
happens disconnect_started s = record s { error = none; stored = none }
happens disconnected s = record s {
  wallet = none;
  address = none;
  account = none;
  connected = false;
}

-- `getStoredWallet`: a name or an address that is empty counts as nothing.
abbrev pub get_stored_wallet : Option (String × String) → Option (String × String)
get_stored_wallet none = none
get_stored_wallet (some (wallet_name, address)) =
    if is_same wallet_name "" || is_same address "" then none else some (wallet_name, address)

-- `toUpperCase`, `toLowerCase` and `includes` of texts, and what the wallets answer.
pub record Wallets : Type 0 where
  pub upper : String → String
  pub lower : String → String
  pub contains : String → String → Bool
  pub get_wallets : List Wallet
  pub connect : Wallet → Bool
  pub accounts : Wallet → List Account

module _ (env : Wallets) where
  -- `n === walletName || n.includes(walletName) || walletName.includes(n)`, in capitals.
  abbrev pub is_named : String → Wallet → Bool
  is_named wallet_name w =
      let n = env.upper w.name in
      let m = env.upper wallet_name in is_same n m || (env.contains n m || env.contains m n)

  abbrev pub find_wallet : String → List Wallet → Option Wallet
  find_wallet wallet_name [] = none
  find_wallet wallet_name (w ∷ ws) =
      if is_named wallet_name w then some w else find_wallet wallet_name ws

  abbrev pub find_account : String → Account → List Account → Account
  find_account addr first [] = first
  find_account addr first (a ∷ rest) =
      if is_same (env.lower a.address) (env.lower addr) then a else find_account addr first rest

  abbrev pub restored_by : String → Wallet → List Account → Option Event
  restored_by addr w [] = none
  restored_by addr w (a ∷ rest) = some (restored w (find_account addr a (a ∷ rest)))

  abbrev pub restore_with : String → Option Wallet → Option Event
  restore_with addr none = none
  restore_with addr (some w) = if env.connect w then restored_by addr w (env.accounts w) else none

  abbrev pub restore_stored : Option (String × String) → Option Event
  restore_stored none = none
  restore_stored (some (wallet_name, addr)) =
      restore_with addr (find_wallet wallet_name env.get_wallets)

  -- The restoration when the page is loaded, where no wallet throws.
  unfoldable pub restore : Option (String × String) → Option Event
  restore stored = restore_stored (get_stored_wallet stored)
