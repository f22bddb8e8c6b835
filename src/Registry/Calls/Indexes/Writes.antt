-- ===== src/Registry/Calls/Indexes/Writes.antt =====
-- What each write does to the lists of providers and of uploaders.
use community_storage.Base.{
  ℕ, ◌<◌, ◌≡◌, refl, sym, ◌∙◌, String, false, none, List, [], ◌∷◌, ◌++◌, arith, is_some, includes,
  IsDistinct, includes-append, Bool-cases, inl, inr,
}
use community_storage.State.{State, Context}
use community_storage.Registry.{
  generate_event, set_node, get_node, get_node_index, set_node_index, get_uploader_index,
  set_uploader_index, set_booked_uploader_gb,
}
use community_storage.Registry.Nodes.{
  push_node_index, push_node_slot, count_registered, store_metadata, registered,
}
use community_storage.Registry.Uploaders.{booked, push_uploader_index}

-- The list of providers holds exactly the addresses of the stored nodes, the list of uploaders
-- exactly those with a booking, each once.
pub record IsListed (s : State) : Type 0 where
  pub nodes_distinct : IsDistinct (get_node_index s)
  pub nodes_listed : (a : String) → includes (get_node_index s) a ≡ is_some (s.nodes a)
  pub uploaders_distinct : IsDistinct (get_uploader_index s)
  pub uploaders_listed :
      (a : String) → includes (get_uploader_index s) a ≡ is_some (s.uploader_bookings a)

-- The same lists, of the same providers and uploaders.
pub record SameLists (s u : State) : Type 0 where
  pub node_list : u.node_index ≡ s.node_index
  pub uploader_list : u.uploader_index ≡ s.uploader_index
  pub bookings : u.uploader_bookings ≡ s.uploader_bookings
  pub stored : (a : String) → is_some (u.nodes a) ≡ is_some (s.nodes a)

pub SameLists-refl : {s : State} → SameLists s s
SameLists-refl = record {
  node_list = refl;
  uploader_list = refl;
  bookings = refl;
  stored = λ a. refl;
}

pub SameLists-trans : {s t u : State} → SameLists s t → SameLists t u → SameLists s u
SameLists-trans k l = record {
  node_list = l.node_list ∙ k.node_list;
  uploader_list = l.uploader_list ∙ k.uploader_list;
  bookings = l.bookings ∙ k.bookings;
  stored = λ a. l.stored a ∙ k.stored a;
}

pub SameLists-IsListed : {s u : State} → SameLists s u → IsListed s → IsListed u
unfolding get_node_index get_uploader_index
SameLists-IsListed k t = record {
  nodes_distinct = rw k.node_list t.nodes_distinct;
  nodes_listed = λ a. rw k.node_list (t.nodes_listed a ∙ sym (k.stored a));
  uploaders_distinct = rw k.uploader_list t.uploaders_distinct;
  uploaders_listed = λ a. rw (k.uploader_list, k.bookings) (t.uploaders_listed a);
}

IsDistinct-push :
    (xs : List String) (a : String)
    → includes xs a ≡ false
    → IsDistinct xs
    → IsDistinct (xs ++ a ∷ [])
IsDistinct-push [] a h d = (refl, tt)
IsDistinct-push (x ∷ xs) a h d =
    (ground (arith, includes-append xs (a ∷ []) x), IsDistinct-push xs a (ground arith) d.1)

-- A provider that registers is appended to the list.
pub registered-IsListed :
    (ctx : Context) (gb : ℕ) (e : String) (ps : List String) (s : State)
    → get_node s ctx.caller ≡ none
    → IsListed s
    → IsListed (registered ctx gb e ps s)
unfolding registered store_metadata count_registered push_node_index push_node_slot set_node
    get_node get_node_index set_node_index get_uploader_index
registered-IsListed ctx gb e ps s fresh t =
    let list = get_node_index s in
    let new : includes list ctx.caller ≡ false = ground (arith, t.nodes_listed ctx.caller) in
    let pushed = IsDistinct-push list ctx.caller new t.nodes_distinct in
    record {
      nodes_distinct = ground arith;
      nodes_listed =
          λ a. ground (arith, t.nodes_listed a, includes-append list (ctx.caller ∷ []) a);
      uploaders_distinct = ground (arith, t.uploaders_distinct);
      uploaders_listed = λ a. ground (arith, t.uploaders_listed a);
    }

-- An uploader that books is appended to the list, unless it is there.
pub booked-IsListed :
    (ctx : Context) (gb : ℕ) (s : State) → 0 < gb → IsListed s → IsListed (booked ctx gb s)
unfolding booked push_uploader_index set_booked_uploader_gb set_uploader_index generate_event
    get_node_index get_uploader_index
booked-IsListed ctx gb s pos t =
    let list = get_uploader_index s in
    record {
      nodes_distinct = ground (arith, t.nodes_distinct);
      nodes_listed = λ a. ground (arith, t.nodes_listed a);
      uploaders_distinct = elim (Bool-cases (includes list ctx.caller)) [
        | inl old ↦ ground (arith, t.uploaders_distinct)
        | inr new ↦
            let longer = IsDistinct-push list ctx.caller new t.uploaders_distinct in ground arith
      ];
      uploaders_listed = λ a. ground (
        arith,
        t.uploaders_listed a,
        t.uploaders_listed ctx.caller,
        includes-append list (ctx.caller ∷ []) a,
      );
    }
