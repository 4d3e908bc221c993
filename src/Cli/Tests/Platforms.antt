-- ===== src/Cli/Tests/Platforms.antt =====
-- A keychain that is a dictionary.
use brewmble.Prelude.{
  List, Option, Text, [], arith, eq_text_refl, err, if◌then◌else◌, lit, none, ok, some, true, ◌∷◌,
}
use brewmble.Prelude.Dict.{Dict, contains_key, get, get-insert, get-remove, insert, remove}
use brewmble.Cli.Ca.{IsStore}
use brewmble.Cli.Ca.Platform.{
  item_not_found, other, SearchResult, bytes, SecItems, Security, macos_store,
  platform_legacy_store,
}
use brewmble.Cli.Ca.Platform.Documented.{IsKeychain, macos_store-IsStore}

abbrev results : Option Text → List SearchResult
results none = []
results (some t) = bytes (ok t) ∷ []

abbrev items : SecItems (Dict Text)
items = record {
  search = λ s account. ok (results (get account s));
  update_item = λ account text s.
      if contains_key account s
      then (ok tt, insert account text s)
      else (err (item_not_found (lit "-25300")), s);
  add = λ account text s.
      if contains_key account s
      then (err (other (lit "-25299")), s)
      else (ok tt, insert account text s);
  delete = λ account s. (ok tt, remove account s);
}

abbrev security : Security (Dict Text)
security = record {
  find_generic_password = λ s account. err (lit "security");
  delete_generic_password =
      λ account s. (ok (record { success = true; stdout = ok [] }), remove account s);
}

items-IsKeychain : IsKeychain items security
items-IsKeychain = record {
  search-update =
      λ account text s h. ground (arith, get-insert account account text s, eq_text_refl account);
  search-add =
      λ account text s h. ground (arith, get-insert account account text s, eq_text_refl account);
  search-update_other =
      λ account another text s h. ground (arith, get-insert account another text s);
  search-add_other = λ account another text s h. ground (arith, get-insert account another text s);
  search-delete_other = λ account another s h. ground (arith, get-remove account another s);
}

macos_store-IsStore_example :
    IsStore (macos_store items) (platform_legacy_store security (λ bs. none))
macos_store-IsStore_example = macos_store-IsStore items security (λ bs. none) items-IsKeychain
