-- ===== src/Party/Sound/Contacts.antt =====
-- `addContactMechanism` keeps the tables sound.
use besterp.Prelude.{
  ◌≡◌, refl, subst, Bool, true, false, List, [], ◌∷◌, Option, none, some, arith, any, All,
  Bool-cases, inl, inr,
}
use besterp.Text.{Text, lit, text_eq}
use besterp.Directory.{
  TypeRow, PartyRow, TelecomNumber, ContactRow, Directory, find_named, find_type, has_party,
}
use besterp.Store.{Store}
use besterp.Run.{commit, pure, throw, query}
use besterp.Run.Keeps.{commit_store, Keeps, if-Keeps, query-Keeps, bind-Keeps}
use besterp.Support.{Support}
use besterp.Platform.{Platform}
use besterp.Limits.{max_tenant_id_length, max_contact_mechanism_type_length}
use besterp.Party.Fields.{require_string_field, require_uuid}
use besterp.Party.Results.{mapped, read, tenant_scoped}
use besterp.Party.Contacts.Input.{
  TelecomNumberInput, contact_tool, validate_contact_mechanism_subtype,
}
use besterp.Party.Contacts.Duplicates.{
  has_email, has_phone, key_of, duplicate_email, duplicate_phone, checked_phone,
  assert_sanitized_postal_usable,
}
use besterp.Party.Contacts.{
  AddContactMechanismInput, ContactRequest, ContactDraft, phone_data, nonempty, email_taken,
  phone_taken, check_email_duplicate, check_telecom_duplicate, new_contact, insert_typed,
  insert_contact, sanitize_phone, after_party, create_contact_mechanism_transaction, known_type,
  add_validated_contact, add_contact_mechanism,
}
use besterp.Party.Sound.{same_email, same_phone, IsSound, IsSoundStore}
use besterp.Party.Sound.Runs.{mapped-Keeps, read-Keeps, attempt-bind-Keeps, tenant_scoped-Keeps}

any-none : {A : Type 0} (p : A → Bool) (xs : List A) → any p xs ≡ false → All (λ x. p x ≡ false) xs
any-none p [] h = tt
any-none p (x ∷ xs) h = ground (arith, any-none p xs)

All-false : {A : Type 0} (xs : List A) → All (λ x. false ≡ false) xs
All-false [] = tt
All-false (x ∷ xs) = (refl, All-false xs)

email-free :
    (tenant : Text) (o : Option Text) (rows : List ContactRow)
    → email_taken tenant o rows ≡ false
    → All (λ y. (elim o [ none ↦ false | some e ↦ has_email tenant e y ]) ≡ false) rows
email-free tenant none rows h = All-false rows
email-free tenant (some e) rows h = any-none (has_email tenant e) rows h

phone-free :
    (tenant : Text) (o : Option TelecomNumber) (rows : List ContactRow)
    → phone_taken tenant o rows ≡ false
    → All (λ y. (elim o [ none ↦ false | some n ↦ has_phone tenant (key_of n) y ]) ≡ false) rows
phone-free tenant none rows h = All-false rows
phone-free tenant (some n) rows h = any-none (has_phone tenant (key_of n)) rows h

module _ (lib : Support) (env : Platform) where
  new_contact-IsSound :
      (q : ContactRequest) (type : TypeRow) (d : ContactDraft) (t : Directory)
      → IsSound t
      → has_party q.party_id t.parties ≡ true
      → email_taken q.tenant_id d.email_address t.contacts ≡ false
      → phone_taken q.tenant_id d.telecom_number t.contacts ≡ false
      → IsSound (record t { contacts = new_contact lib env q type d t ∷ t.contacts })
  unfolding new_contact same_email same_phone
  new_contact-IsSound q type d t sound linked email phone = record {
    parties_valid = sound.parties_valid;
    roles_linked = sound.roles_linked;
    contacts_linked = (linked, sound.contacts_linked);
    roles_apart = sound.roles_apart;
    emails_apart = (email-free q.tenant_id d.email_address t.contacts email, sound.emails_apart);
    phones_apart = (phone-free q.tenant_id d.telecom_number t.contacts phone, sound.phones_apart);
  }

  insert_typed-IsSound :
      (q : ContactRequest) (d : ContactDraft) (s : Store) (type : Option TypeRow) (a : ContactRow)
      (s' : Store)
      → IsSoundStore s
      → insert_typed lib env q d s type ≡ commit a s'
      → IsSoundStore s'
  unfolding insert_typed
  insert_typed-IsSound q d s none a s' sound h = cc
  insert_typed-IsSound q d s (some type) a s' sound h =
      elim (Bool-cases (has_party q.party_id s.directory.parties)) [
        | inr missing ↦ cc (rw missing at h)
        | inl linked ↦
            elim (Bool-cases (email_taken q.tenant_id d.email_address s.directory.contacts)) [
              | inl taken ↦ cc (rw taken at (rw linked at h))
              | inr email ↦
                  elim (Bool-cases
                    (phone_taken q.tenant_id d.telecom_number s.directory.contacts)) [
                      | inl taken ↦ cc (rw taken at (rw email at (rw linked at h)))
                      | inr phone ↦
                          subst IsSoundStore
                            (commit_store (rw phone at (rw email at (rw linked at h))))
                            (new_contact-IsSound q type d s.directory sound linked email phone)
                    ]
            ]
      ]

  insert_contact-Keeps :
      (q : ContactRequest) (d : ContactDraft)
      → Keeps IsSoundStore (query (insert_contact lib env q d))
  unfolding insert_contact
  insert_contact-Keeps q d =
      query-Keeps IsSoundStore (insert_contact lib env q d) (λ now s a s' sound h.
        insert_typed-IsSound q d s (find_type q.type_id s.directory.contact_types) a s' sound h)

  check_email_duplicate-Keeps :
      (tenant : Text) (o : Option Text)
      → Keeps IsSoundStore (check_email_duplicate lib env tenant o)
  unfolding check_email_duplicate
  check_email_duplicate-Keeps tenant none = λ w kept. kept
  check_email_duplicate-Keeps tenant (some e) =
      bind-Keeps IsSoundStore (read (λ s. any (has_email tenant e) s.directory.contacts)) _
        (read-Keeps IsSoundStore _)
        (λ taken.
          if-Keeps IsSoundStore taken (throw (duplicate_email e)) (pure tt) (λ _ w kept. kept)
            (λ _ w kept. kept))

  check_telecom_duplicate-Keeps :
      (tenant : Text) (o : Option TelecomNumberInput)
      → Keeps IsSoundStore (check_telecom_duplicate lib env tenant o)
  unfolding check_telecom_duplicate
  check_telecom_duplicate-Keeps tenant none = λ w kept. kept
  check_telecom_duplicate-Keeps tenant (some i) =
      attempt-bind-Keeps IsSoundStore (checked_phone lib env i) _ (λ k e.
        bind-Keeps IsSoundStore (read (λ s. any (has_phone tenant k) s.directory.contacts)) _
          (read-Keeps IsSoundStore _)
          (λ taken.
            if-Keeps IsSoundStore taken (throw (duplicate_phone k)) (pure tt) (λ _ w kept. kept)
              (λ _ w kept. kept)))

  after_party-Keeps :
      (q : ContactRequest) (o : Option PartyRow) → Keeps IsSoundStore (after_party lib env q o)
  unfolding after_party
  after_party-Keeps q none = λ w kept. kept
  after_party-Keeps q (some p) =
      bind-Keeps IsSoundStore
        (check_email_duplicate lib env q.tenant_id (nonempty q.normalized_email)) _
        (check_email_duplicate-Keeps q.tenant_id (nonempty q.normalized_email))
        (λ u.
          bind-Keeps IsSoundStore (check_telecom_duplicate lib env q.tenant_id (phone_data q)) _
            (check_telecom_duplicate-Keeps q.tenant_id (phone_data q))
            (λ v.
              attempt-bind-Keeps IsSoundStore
                (assert_sanitized_postal_usable lib env q.type q.details.postal_address) _
                (λ postal e1.
                  attempt-bind-Keeps IsSoundStore (sanitize_phone lib env (phone_data q)) _
                    (λ phone e2. insert_contact-Keeps q _))))

  create_contact_mechanism_transaction-Keeps :
      (q : ContactRequest) → Keeps IsSoundStore (create_contact_mechanism_transaction lib env q)
  unfolding create_contact_mechanism_transaction
  create_contact_mechanism_transaction-Keeps q =
      mapped-Keeps IsSoundStore env contact_tool (lit "contact mechanism") _ (
        bind-Keeps IsSoundStore _ (after_party lib env q) (read-Keeps IsSoundStore _)
          (after_party-Keeps q))

  known_type-Keeps :
      (type : Text) (o : Option TypeRow) → Keeps IsSoundStore (known_type lib env type o)
  unfolding known_type
  known_type-Keeps type none w kept = kept
  known_type-Keeps type (some t) w kept = kept

  pub add_contact_mechanism-Keeps :
      (i : AddContactMechanismInput) → Keeps IsSoundStore (add_contact_mechanism lib env i)
  unfolding add_contact_mechanism add_validated_contact
  add_contact_mechanism-Keeps i =
      attempt-bind-Keeps IsSoundStore
        (require_string_field i.tenant_id (lit "tenantId") max_tenant_id_length contact_tool) _
        (λ tenant e1.
          attempt-bind-Keeps IsSoundStore
            (require_uuid lib i.party_id (lit "partyId") (contact_tool ∷ [])) _
            (λ id e2.
              bind-Keeps IsSoundStore (tenant_scoped lib tenant) _
                (tenant_scoped-Keeps IsSoundStore lib tenant)
                (λ scope.
                  attempt-bind-Keeps IsSoundStore
                    (require_string_field i.contact_mechanism_type (lit "contactMechanismType")
                      max_contact_mechanism_type_length contact_tool)
                    _
                    (λ type e3.
                      attempt-bind-Keeps IsSoundStore
                        (validate_contact_mechanism_subtype lib env type i.details) _
                        (λ email e4. with_type tenant id type email)))))
    where
      with_type :
          (tenant id type : Text) (email : Option Text)
          → Keeps IsSoundStore (add_validated_contact lib env i.details tenant id type email)
      with_type tenant id type email =
          bind-Keeps IsSoundStore
            (mapped env contact_tool (lit "contact mechanism")
              (read (λ s. find_named (text_eq type) s.directory.contact_types)))
            _
            (mapped-Keeps IsSoundStore env contact_tool (lit "contact mechanism") _
              (read-Keeps IsSoundStore _))
            (λ row.
              bind-Keeps IsSoundStore (known_type lib env type row) _ (known_type-Keeps type row)
                (λ type_id.
                  let q : ContactRequest = record {
                    tenant_id = tenant;
                    party_id = id;
                    type = type;
                    type_id = type_id;
                    details = i.details;
                    normalized_email = email;
                  } in
                  bind-Keeps IsSoundStore (create_contact_mechanism_transaction lib env q) _
                    (create_contact_mechanism_transaction-Keeps q) (λ r w kept. kept)))
