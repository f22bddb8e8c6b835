-- ===== src/Tests/Downloading.antt =====
-- Getting back a film that was stored with one provider.
use community_storage.Base.{
  ◌≡◌, refl, ap, sym, subst, true, false, none, some, [], ◌∷◌, ok, inl, String_discrete,
}
use community_storage.Front.MyFiles.{StoredFile}
use community_storage.Front.Upload.{answer_of, headers_of, upload_file_to_provider}
use community_storage.Front.Client.Rpc.{served}
use community_storage.Front.Store.{
  Confirmation, handle_confirm_store, send_files, upload_all, uploaded_entries,
}
use community_storage.Front.Upload.{upload_file_to_providers}
use community_storage.Front.Download.{
  Servers, not_saved, download_file_from_provider, download_and_save_from_provider, save_from_first,
}
use community_storage.Front.Download.Stored.{
  Available, AllAvailable, AllDownloaded, stored-downloaded,
}
use community_storage.Tests.{one_provider}
use community_storage.Tests.Codec.{codec}
use community_storage.Tests.Clients.{told}
use community_storage.Tests.Storing.{film, world, page, booking_call, booking_sent}

-- Every server gives the film back.
abbrev servers : Servers
servers = record {
  is_url = λ url. true;
  get = λ url id.
      ok (record { is_ok = true; status = 200; json_error = none; blob = ok film.content });
}

-- The first server is down, and no server has anything.
abbrev empty_servers : Servers
empty_servers = record {
  is_url = λ url. true;
  get = λ url id. ok (record { is_ok = false; status = 404; json_error = none; blob = ok [] });
}

nothing_there :
    download_and_save_from_provider empty_servers ("a" ∷ "b" ∷ []) "id" "film"
    ≡ ok (not_saved "Impossible de récupérer le fichier depuis les providers.")
unfolding download_and_save_from_provider save_from_first download_file_from_provider
nothing_there = refl

abbrev film_entry : StoredFile
film_entry = record {
  id = "id";
  name = "film";
  size = 2_500_000_000;
  replication_count = 1;
  duration_months = 1;
  providers = "north" ∷ [];
  provider_endpoints = some ("http://north" ∷ []);
  uploaded_at = "2026-01-01";
  expires_at = "2026-02-01";
  uploader_address = "user";
  uploaded_to = some ("http://north" ∷ []);
}

abbrev confirmed : Confirmation
confirmed = handle_confirm_store (world true) codec (served codec told one_provider) page

film_stored :
    confirmed
    ≡ record { calls = booking_call ∷ []; notices = []; added = film_entry ∷ []; done = true }
unfolding handle_confirm_store send_files upload_all uploaded_entries upload_file_to_providers
    upload_file_to_provider answer_of headers_of String_discrete
film_stored = rw (booking_sent true) refl

film-Available : Available (world true) servers film film_entry
unfolding download_file_from_provider String_discrete
film-Available = record {
  has_id = λ e. cc;
  kept = λ url h. inl refl;
  source = "http://north";
  listed = refl;
  gives = refl;
}

available : AllAvailable (world true) servers page.files confirmed.added
available =
    subst (λ c. AllAvailable (world true) servers page.files c.added) (sym film_stored)
      (film-Available, tt)

stored-downloaded_example : AllDownloaded (world true) servers (λ e. []) page.files confirmed.added
stored-downloaded_example =
    stored-downloaded (world true) codec (served codec told one_provider) page servers (λ e. [])
      refl (ap (λ c. c.done) film_stored) available
