-- ===== src/Front/FilesPage.antt =====
-- The page of a wallet's files: front/src/pages/MyFiles.jsx. The price of an extension is computed with
-- floating point numbers and is an argument.
pub mod Payment
pub mod Extended
use Prim.Native.Nat.{◌/◌}
use mathlib.Core.List.{map}
use community_storage.Base.{
  get_or, ℕ, ◌+◌, String, Bool, true, false, not, ◌&&◌, Option, none, some, List, [], ◌∷◌, ◌++◌,
  length, keep, ltb, ◌==◌, if◌then◌else◌, is_same, includes, Result, ok, abort,
}
use community_storage.Front.MyFiles.{
  StoredFile, LocalStorage, get_stored_files, extend_stored_files, remove_stored_files,
}

-- `{ totalNano, byProvider }`: an object with one key for each address.
pub record ExtendPayment : Type 0 where
  pub total_nano : ℕ
  pub by_provider : List (String × ℕ)

-- `byProvider[addr] = (byProvider[addr] || 0n) + share`
unfoldable pub add_share : String → ℕ → List (String × ℕ) → List (String × ℕ)
add_share addr share [] = (addr, share) ∷ []
add_share addr share ((a, n) ∷ rest) =
    if is_same a addr then (a, n + share) ∷ rest else (a, n) ∷ add_share addr share rest

unfoldable pub add_shares : List String → ℕ → List (String × ℕ) → List (String × ℕ)
unfolding add_share
add_shares [] share l = l
add_shares (addr ∷ providers) share l = add_shares providers share (add_share addr share l)

-- `entry.providers?.filter(Boolean) || []`
abbrev pub paid_providers : StoredFile → List String
paid_providers e = keep (λ a. not (is_same a "")) e.providers

-- One round of the loop of `computeExtendPayment`: an entry that no provider keeps costs nothing.
unfoldable pub add_entry : ℕ → List String → ExtendPayment → ExtendPayment
unfolding add_shares
add_entry price_nano [] p = p
add_entry price_nano (a ∷ rest) p =
    let per_provider = price_nano / length (a ∷ rest) in
    record {
      total_nano = p.total_nano + price_nano;
      by_provider =
          if ltb 0 per_provider
          then add_shares (a ∷ rest) per_provider p.by_provider
          else p.by_provider;
    }

module _ (price : StoredFile → ℕ → ℕ) where
  unfoldable pub add_entries : List StoredFile → ℕ → ExtendPayment → ExtendPayment
  unfolding add_entry
  add_entries [] months p = p
  add_entries (e ∷ entries) months p =
      add_entries entries months (add_entry (price e months) (paid_providers e) p)

  unfoldable pub compute_extend_payment : List StoredFile → ℕ → ExtendPayment
  unfolding add_entries
  compute_extend_payment entries months =
      add_entries entries months (record { total_nano = 0; by_provider = [] })

-- `totalNano > 0n && Object.keys(byProvider).length > 0`
abbrev pub needs_payment : ExtendPayment → Bool
needs_payment p = ltb 0 p.total_nano && ltb 0 (length p.by_provider)

-- What the dialog asks to confirm.
pub record ExtendConfirm : Type 0 where
  pub ids : List String
  pub months : ℕ
  pub payment : ExtendPayment

-- The page, with the local storage of the browser and the message that is shown last.
pub record FilesPage : Type 0 where
  pub list : List StoredFile
  pub selected_ids : List String
  pub extend_months : ℕ
  pub extend_confirm : Option ExtendConfirm
  pub address : Option String
  pub connected : Bool
  pub has_account : Bool
  pub storage : LocalStorage
  pub toast : Option String

-- `next.has(id) ? next.delete(id) : next.add(id)`, on a set that keeps the order of its values.
unfoldable pub toggle : String → List String → List String
toggle id ids = if includes ids id then keep (λ x. not (is_same x id)) ids else ids ++ id ∷ []

unfoldable pub toggle_select : String → FilesPage → FilesPage
unfolding toggle
toggle_select id page = record page { selected_ids = toggle id page.selected_ids }

-- `new Set(list.map((e) => e.id))`
abbrev pub set_of : List String → List String → List String
set_of seen [] = seen
set_of seen (x ∷ xs) = set_of (if includes seen x then seen else seen ++ x ∷ []) xs

unfoldable pub toggle_select_all : FilesPage → FilesPage
toggle_select_all page =
    if length page.selected_ids == length page.list
    then record page { selected_ids = [] }
    else record page { selected_ids = set_of [] (map (λ e. e.id) page.list) }

unfoldable pub entries_to_extend : List StoredFile → List String → List StoredFile
entries_to_extend list ids = keep (λ e. includes ids e.id) list

abbrev pub find_entry : String → List StoredFile → Option StoredFile
find_entry id [] = none
find_entry id (e ∷ rest) = if is_same e.id id then some e else find_entry id rest

-- `normalise` and `add_months` are those of the files of a wallet; `pay` is the transfer to the
-- contract with its confirmation, and what it throws may have no message.
pub record Surroundings : Type 0 where
  pub normalise : String → String
  pub add_months : String → ℕ → String
  pub price : StoredFile → ℕ → ℕ
  pub pay : ℕ → Result (Option String) (Unit {0})

abbrev pub has_address : Option String → Bool
has_address none = false
has_address (some a) = not (is_same a "")

abbrev connect_first : String
connect_first = "Connectez votre wallet pour payer la prolongation."

abbrev pub payment_refused : String
payment_refused = "Paiement refusé ou échoué. Vérifiez votre solde."

module _ (env : Surroundings) where
  unfoldable pub load : FilesPage → FilesPage
  load page = record page { list = get_stored_files env.normalise page.address page.storage }

  -- `if (address) extendStoredFiles(address, ids, months)`
  unfoldable pub extend : List String → ℕ → FilesPage → FilesPage
  extend ids months page =
      if has_address page.address
      then record page {
        storage =
            (extend_stored_files env.normalise page.address env.add_months ids months
              page.storage).1;
      }
      else page

  -- `if (address) removeStoredFiles(address, ids)`
  unfoldable pub remove : List String → FilesPage → FilesPage
  remove ids page =
      if has_address page.address
      then record page {
        storage = (remove_stored_files env.normalise page.address ids page.storage).1;
      }
      else page

  -- What `handleExtendSelected` and `handleExtendOne` share: a payment is confirmed first. `forget`
  -- clears the selection.
  unfoldable pub ask_or_extend :
      List StoredFile → List String → ℕ → (forget : FilesPage → FilesPage) → FilesPage → FilesPage
  unfolding extend load
  ask_or_extend entries ids months forget page =
      let payment = compute_extend_payment env.price entries months in
      if needs_payment payment && (page.connected && page.has_account)
      then record page {
        extend_confirm = some (record { ids = ids; months = months; payment = payment });
      }
      else if needs_payment payment && not page.connected
      then record page { toast = some connect_first }
      else load (forget (extend ids months page))

  abbrev pub clear_selection : FilesPage → FilesPage
  clear_selection page = record page { selected_ids = [] }

  unfoldable pub handle_extend_selected : FilesPage → FilesPage
  unfolding ask_or_extend entries_to_extend
  handle_extend_selected page =
      if length page.selected_ids == 0
      then page
      else ask_or_extend (entries_to_extend page.list page.selected_ids) page.selected_ids
          page.extend_months clear_selection page

  abbrev extend_entry : String → Option StoredFile → FilesPage → FilesPage
  unfolding ask_or_extend
  extend_entry id none page = page
  extend_entry id (some e) page = ask_or_extend (e ∷ []) (id ∷ []) 1 (λ p. p) page

  unfoldable pub handle_extend_one : String → FilesPage → FilesPage
  unfolding extend_entry
  handle_extend_one id page = extend_entry id (find_entry id page.list) page

  -- The payment, where there is something to pay.
  abbrev pub pay_total : ℕ → Result (Option String) (Unit {0})
  pay_total total_nano = if ltb 0 total_nano then env.pay total_nano else ok tt

  -- `toast.error(e?.message ?? '…')` where it was refused.
  abbrev pub paid : ExtendConfirm → FilesPage → Result (Option String) (Unit {0}) → FilesPage
  paid c page (abort message) = record page { toast = some (get_or payment_refused message) }
  paid c page (ok _) =
      load (record (extend c.ids c.months page) { extend_confirm = none; selected_ids = [] })

  abbrev pub confirm : Option ExtendConfirm → FilesPage → FilesPage
  confirm none page = page
  confirm (some c) page =
      if not page.has_account then page else paid c page (pay_total c.payment.total_nano)

  unfoldable pub handle_extend_confirm : FilesPage → FilesPage
  handle_extend_confirm page = confirm page.extend_confirm page

  unfoldable pub handle_extend_cancel : FilesPage → FilesPage
  handle_extend_cancel page = record page { extend_confirm = none }

  unfoldable pub handle_delete_selected : FilesPage → FilesPage
  unfolding remove load
  handle_delete_selected page =
      if length page.selected_ids == 0
      then page
      else load (record (remove page.selected_ids page) { selected_ids = [] })

  unfoldable pub handle_delete_one : String → FilesPage → FilesPage
  unfolding remove load
  handle_delete_one id page = load (record (remove (id ∷ []) page) {
    selected_ids = keep (λ x. not (is_same x id)) page.selected_ids;
  })
