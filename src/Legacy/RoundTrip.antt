-- ===== src/Legacy/RoundTrip.antt =====
-- The manifests that core/legacy.py makes are those that it accepts.
use l4d2_iptable_suite.Base.{
  ◌≡◌, refl, ap, ◌∙◌, true, not, eq_refl, String, List, [], ◌∷◌, map, length, leb, arith,
}
use l4d2_iptable_suite.Base.Result.{Result, ok}
use l4d2_iptable_suite.Base.Yields.{Yields, ok-Yields, bind-Yields, require-Yields}
use l4d2_iptable_suite.Base.Json.{Json, item}
use l4d2_iptable_suite.Engine.Nft.{TableKey, has_key}
use l4d2_iptable_suite.Legacy.{
  Entry, Manifest, single, several, table_name, is_digest, among, key_of, are_distinct, validate,
  tables,
}
use l4d2_iptable_suite.Legacy.Handover.{
  members, items_of, check_chains, listed_handle, table_inventory, nat_inventory, inventory,
  inventory_of, inventory_again, same_entry, same_entries, same_manifest, verify,
}
use l4d2_iptable_suite.Legacy.Made.{
  IsMade, IsNat, manifest_json, table_name_self, listed_handle-IsHandle, fresh_key, fresh_rest,
  made-IsInventoried, accepted,
}

-- what the inventory has put together
record IsInventory (name : String) (nat_tables : List TableKey) (m : Manifest) : Type 0 where
  inet : Entry
  entries : List Entry
  is_manifest : m ≡ inventory_of inet entries
  few : leb (length nat_tables) 7 ≡ true
  made : IsMade "inet" name inet
  nat : IsNat (("inet", name) ∷ []) nat_tables entries

same_entry_refl : (e : Entry) → same_entry e e ≡ true
same_entry_refl e = ground (arith, eq_refl e.family, eq_refl e.name, eq_refl e.sha256)

same_entries_refl : (es : List Entry) → same_entries es es ≡ true
same_entries_refl [] = refl
same_entries_refl (e ∷ es) = rw (same_entry_refl e) (same_entries_refl es)

same_manifest_refl : (m : Manifest) → same_manifest m m ≡ true
same_manifest_refl (single e) = same_entry_refl e
same_manifest_refl (several es) = same_entries_refl es

module _ (list_table : String → String → Result Json) (fingerprint : Json → String)
    (is_hex : (value : Json) → is_digest (fingerprint value) ≡ true) where
  table_inventory-IsMade :
      (family name : String)
      → Yields (IsMade family name) (table_inventory list_table fingerprint family name)
  unfolding table_inventory
  table_inventory-IsMade family name =
      bind-Yields (IsMade family name) (table_name name) _ (λ n named.
        require-Yields (IsMade family name) (among family ("inet" ∷ "ip" ∷ "ip6" ∷ [])) _ _ (λ _.
          bind-Yields (IsMade family name) (list_table family name) _ (λ raw _.
            bind-Yields (IsMade family name) (item raw "nftables") _ (λ listed _.
              bind-Yields (IsMade family name) (items_of listed) _ (λ values _.
                bind-Yields (IsMade family name) (members "table" values) _ (λ found _.
                  bind-Yields (IsMade family name) (listed_handle family name found) _
                    (λ handle handled.
                      bind-Yields (IsMade family name) (members "chain" values) _ (λ chains _.
                        bind-Yields (IsMade family name) (check_chains family chains) _ (λ _ _.
                          ok-Yields (IsMade family name)
                            (record {
                              family = family;
                              name = name;
                              handle = handle;
                              sha256 = fingerprint raw;
                            })
                            (record {
                              same_family = refl;
                              same_name = refl;
                              good_name = named ∙ ap ok (table_name_self name n named);
                              good_handle = listed_handle-IsHandle family name found handle handled;
                              good_digest = is_hex raw;
                            }))))))))))

  nat_inventory-IsNat :
      (seen keys : List TableKey)
      → Yields (IsNat seen keys) (nat_inventory list_table fingerprint seen keys)
  unfolding nat_inventory are_distinct
  nat_inventory-IsNat seen [] =
      ok-Yields (IsNat seen []) []
        (record { are_good = tt; same_keys = refl; are_fresh = tt; are_apart = refl })
  nat_inventory-IsNat seen (key ∷ keys) =
      require-Yields (IsNat seen (key ∷ keys)) (among key.0 ("ip" ∷ "ip6" ∷ []))
        "Legacy NAT table family must be ip or ip6" _
        (λ known. bind-Yields (IsNat seen (key ∷ keys)) (table_name key.1) _ (λ _ _.
          require-Yields (IsNat seen (key ∷ keys)) (not (has_key key seen)) "Duplicate legacy table"
            _
            (λ fresh.
              bind-Yields (IsNat seen (key ∷ keys))
                (table_inventory list_table fingerprint key.0 key.1) _
                (λ entry made.
                  bind-Yields (IsNat seen (key ∷ keys))
                    (nat_inventory list_table fingerprint (key ∷ seen) keys) _
                    (λ entries after.
                      let m = table_inventory-IsMade key.0 key.1 entry made in
                      let rest = nat_inventory-IsNat (key ∷ seen) keys entries after in
                      ok-Yields (IsNat seen (key ∷ keys)) (entry ∷ entries) (record {
                        are_good = (made-IsInventoried _ key.0 key.1 entry known m, rest.are_good);
                        same_keys = cc (m.same_family, m.same_name, rest.same_keys);
                        are_fresh =
                            (ground (arith, fresh), fresh_rest key seen keys rest.are_fresh);
                        are_apart =
                            ground (arith, fresh_key key seen keys rest.are_fresh, rest.are_apart);
                      }))))))

  inventory-IsInventory :
      (name : String) (nat_tables : List TableKey)
      → Yields (IsInventory name nat_tables) (inventory list_table fingerprint name nat_tables)
  unfolding inventory
  inventory-IsInventory name nat_tables =
      require-Yields (IsInventory name nat_tables) (leb (length nat_tables) 7)
        "Legacy inventory supports at most eight tables" _
        (λ few.
          bind-Yields (IsInventory name nat_tables)
            (table_inventory list_table fingerprint "inet" name) _
            (λ inet made.
              bind-Yields (IsInventory name nat_tables)
                (nat_inventory list_table fingerprint (("inet", name) ∷ []) nat_tables) _
                (λ entries after.
                  ok-Yields (IsInventory name nat_tables) (inventory_of inet entries) (record {
                    inet = inet;
                    entries = entries;
                    is_manifest = refl;
                    few = few;
                    made = table_inventory-IsMade "inet" name inet made;
                    nat = nat_inventory-IsNat (("inet", name) ∷ []) nat_tables entries after;
                  }))))

  -- When the digests are 64 hexadecimal digits, a manifest that the inventory makes is
  -- accepted, and read back as it is.
  pub validate-inventory :
      (name : String) (nat_tables : List TableKey) (m : Manifest)
      → inventory list_table fingerprint name nat_tables ≡ ok m
      → validate (manifest_json m) ≡ ok m
  validate-inventory name nat_tables m h =
      let i = inventory-IsInventory name nat_tables m h in
      rw i.is_manifest (accepted name nat_tables i.few i.inet i.made i.entries i.nat)

  inventory_again-inventory :
      (inet : Entry) (entries : List Entry) (name : String) (nat_tables : List TableKey)
      → inet.name ≡ name
      → map key_of entries ≡ nat_tables
      → inventory_again list_table fingerprint (tables (inventory_of inet entries))
        ≡ inventory list_table fingerprint name nat_tables
  inventory_again-inventory inet [] name nat_tables named keys = cc (named, keys)
  inventory_again-inventory inet (e ∷ es) name nat_tables named keys = cc (named, keys)

  -- When the digests are 64 hexadecimal digits, a manifest that the inventory makes is
  -- verified as long as the tables are listed the same.
  pub verify-inventory :
      (name : String) (nat_tables : List TableKey) (m : Manifest)
      → inventory list_table fingerprint name nat_tables ≡ ok m
      → verify list_table fingerprint (manifest_json m) ≡ ok tt
  unfolding verify
  verify-inventory name nat_tables m h =
      let i = inventory-IsInventory name nat_tables m h in
      let again =
        inventory_again-inventory i.inet i.entries name nat_tables i.made.same_name
          i.nat.same_keys in
      let listed : inventory_again list_table fingerprint (tables m) ≡ ok m =
        rw (← i.is_manifest) at again ∙ h in
      rw (validate-inventory name nat_tables m h, listed, same_manifest_refl m) refl
