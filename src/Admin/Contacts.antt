-- ===== src/Admin/Contacts.antt =====
-- internal/admin/contacts.go: the forms of contacts. `value` is `PostFormValue` and `all` is `PostForm`, by
-- the name of a field; random UIDs, the clock and the way it prints an instant are parameters.
use edav.Base.{ℕ, List, [], ◌∷◌, ◌++◌, Option, none, some, false, if◌then◌else◌}
use edav.Base.Bytes.{Bytes, codes, equal, to_lower}
use edav.Base.Time.{trim_space}
use edav.Storage.{Database}
use edav.Storage
use edav.Dav.Backend.{Bounds}
use edav.Vcard.{Property}
use edav.Vcard.Contact.{Contact, read_contact, display_name, apply, new_card, filename}
use edav.Admin.Accounts.{Reply}
use edav.Admin.Objects.{create_in, update_in, delete_in}

abbrev first_type : List Bytes → Bytes
first_type [] = []
first_type (t ∷ types) = t

abbrev other_types : List Bytes → List Bytes
other_types [] = []
other_types (t ∷ types) = types

-- The loop of `propertiesFromForm`: a row whose value is blank is dropped, with its type.
unfoldable pub paired : List Bytes → List Bytes → List Property
unfolding trim_space to_lower
paired [] types = []
paired (v ∷ values) types =
    let rest = paired values (other_types types) in
    elim (trim_space v) [
      | [] ↦ rest
      | c ∷ w ↦ record { value = c ∷ w; type = to_lower (trim_space (first_type types)) } ∷ rest
    ]

-- `propertiesFromForm`.
unfoldable pub properties_from_form : (Bytes → List Bytes) → Bytes → List Property
unfolding paired
properties_from_form all field =
    paired (all (field ++ codes "_value")) (all (field ++ codes "_type"))

-- `contactFromForm`.
unfoldable pub contact_from_form : (Bytes → Bytes) → (Bytes → List Bytes) → Contact
unfolding properties_from_form trim_space
contact_from_form value all =
    let get = λ (name : Bytes). trim_space (value name) in
    record {
      uid = get (codes "uid");
      formatted_name = get (codes "formatted_name");
      family_name = get (codes "family_name");
      given_name = get (codes "given_name");
      organisation = get (codes "organisation");
      title = get (codes "title");
      note = get (codes "note");
      phones = properties_from_form all (codes "phone");
      emails = properties_from_form all (codes "email");
      url = get (codes "url");
    }

-- The columns that `storeContact` takes from the text.
unfoldable pub contact_index : Bytes → Option Bounds
unfolding read_contact display_name
contact_index raw = elim (read_contact raw) [
  | none ↦ none
  | some c ↦ some (record {
    uid = c.uid;
    component_type = codes "VCARD";
    summary = display_name c;
    start = none;
    end = none;
    recurring = false;
  })
]

-- The name of a new object: one of its own where the name that the form gives is the extension alone.
unfoldable pub contact_name : Bytes → Contact → Bytes
unfolding filename
contact_name random_uid c =
    if equal (filename c.uid) (codes ".vcf") then filename random_uid else filename c.uid

module _ {Instant : Type 0} (format_utc : Instant → Bytes) (etag_for : Bytes → Bytes) where
  -- `createContact`, with the UIDs that the two calls of `NewUID` would give, and `time.Now()` as the card
  -- and as the table record it.
  unfoldable pub create_contact :
      Bytes
      → Bytes
      → Instant
      → ℕ
      → Database
      → Bytes
      → (Bytes → Bytes)
      → (Bytes → List Bytes)
      → Database × Reply
  unfolding contact_from_form contact_name
  create_contact random_uid random_name instant now db id value all =
      let form = contact_from_form value all in
      create_in contact_index etag_for Storage.addressbook now db id
        (new_card format_utc random_uid form instant) (contact_name random_name form)

  -- `updateContact`.
  unfoldable pub update_contact :
      Instant
      → ℕ
      → Database
      → Bytes
      → Bytes
      → (Bytes → Bytes)
      → (Bytes → List Bytes)
      → Database × Reply
  unfolding contact_from_form
  update_contact instant now db id uri value all =
      update_in contact_index etag_for Storage.addressbook
        (λ raw. apply format_utc raw (contact_from_form value all) instant) now db id uri

unfoldable pub delete_contact : ℕ → Database → Bytes → Bytes → Database × Reply
delete_contact = delete_in Storage.addressbook
