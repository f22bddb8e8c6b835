-- ===== src/Front/FilesPage/Extended.antt =====
-- An extension that costs something is paid before it is written.
use community_storage.Base.{
  ◌≡◌, Option, get_or, refl, String, true, false, ◌&&◌, none, some, List, [], length, ◌==◌, arith,
  ok, abort,
}
use community_storage.Front.MyFiles.{StoredFile, extend_stored_files}
use community_storage.Front.FilesPage.{
  payment_refused, pay_total, clear_selection, ExtendPayment, FilesPage, Surroundings,
  needs_payment, compute_extend_payment, entries_to_extend, ask_or_extend, handle_extend_selected,
  handle_extend_confirm, extend, load, has_address,
}

module _ (env : Surroundings) (page : FilesPage) where
  -- The dialog, opened for the selection.
  asks : ExtendPayment → FilesPage
  asks payment = record page {
    extend_confirm =
        some (record { ids = page.selected_ids; months = page.extend_months; payment = payment });
  }

  ask-asks :
      (entries : List StoredFile)
      → needs_payment (compute_extend_payment env.price entries page.extend_months) ≡ true
      → (page.connected && page.has_account) ≡ true
      → ask_or_extend env entries page.selected_ids page.extend_months (clear_selection env) page
        ≡ asks (compute_extend_payment env.price entries page.extend_months)
  unfolding ask_or_extend asks
  ask-asks entries costs ready = rw (costs, ready) refl

  selected-asks :
      (length page.selected_ids == 0) ≡ false
      → needs_payment (
          compute_extend_payment env.price
            (entries_to_extend page.list page.selected_ids)
            page.extend_months)
        ≡ true
      → (page.connected && page.has_account) ≡ true
      → handle_extend_selected env page
        ≡ asks (
            compute_extend_payment env.price
              (entries_to_extend page.list page.selected_ids)
              page.extend_months)
  unfolding handle_extend_selected
  selected-asks chosen costs ready =
      rw chosen (ask-asks (entries_to_extend page.list page.selected_ids) costs ready)

  module _ (payment : ExtendPayment) (costs : needs_payment payment ≡ true)
      (there : page.has_account ≡ true) where
    total_due : pay_total env payment.total_nano ≡ env.pay payment.total_nano
    total_due = ground arith

    confirm-refused :
        (message : Option String)
        → env.pay payment.total_nano ≡ abort message
        → let done = handle_extend_confirm env (asks payment) in
          (done.storage ≡ page.storage)
          × (done.extend_confirm ≡ (asks payment).extend_confirm)
          × (done.toast ≡ some (get_or payment_refused message))
    unfolding handle_extend_confirm asks
    confirm-refused message refusal = rw (there, total_due, refusal) (refl, refl, refl)

    confirm-paid :
        has_address page.address ≡ true
        → env.pay payment.total_nano ≡ ok tt
        → let done = handle_extend_confirm env (asks payment) in
          (done.storage
            ≡ (extend_stored_files env.normalise page.address env.add_months page.selected_ids
                page.extend_months page.storage).1)
          × (done.extend_confirm ≡ none)
          × (done.selected_ids ≡ [])
    unfolding handle_extend_confirm asks extend load
    confirm-paid known done = rw (there, total_due, done, known) (refl, refl, refl)

-- With a connected wallet and a selection that costs something, asking for the extension writes
-- nothing. Confirming it then asks the wallet for exactly the computed total: if the wallet refuses,
-- still nothing is written, the dialog stays, and the message of the refusal is shown, or a standard
-- one where it has none; if it pays, the selected files
-- are extended by the chosen months, the dialog is closed and nothing is selected. The address is not
-- empty.
pub extend-paid :
    (env : Surroundings) (page : FilesPage)
    → let payment =
        compute_extend_payment env.price
          (entries_to_extend page.list page.selected_ids)
          page.extend_months in
      (length page.selected_ids == 0) ≡ false
      → needs_payment payment ≡ true
      → (page.connected && page.has_account) ≡ true
      → has_address page.address ≡ true
      → let asked = handle_extend_selected env page in
        let done = handle_extend_confirm env asked in
        (asked.storage ≡ page.storage)
        × ((message : Option String)
            → env.pay payment.total_nano ≡ abort message
            → (done.storage ≡ page.storage)
              × (done.extend_confirm ≡ asked.extend_confirm)
              × (done.toast ≡ some (get_or payment_refused message)))
        × (env.pay payment.total_nano ≡ ok tt
            → (done.storage
                ≡ (extend_stored_files env.normalise page.address env.add_months page.selected_ids
                    page.extend_months page.storage).1)
              × (done.extend_confirm ≡ none)
              × (done.selected_ids ≡ []))
unfolding asks
extend-paid env page chosen costs ready known =
    let payment =
      compute_extend_payment env.price (entries_to_extend page.list page.selected_ids)
        page.extend_months in
    let there : page.has_account ≡ true = ground arith in
    rw (selected-asks env page chosen costs ready) (
      refl,
      confirm-refused env page payment costs there,
      confirm-paid env page payment costs there known,
    )
