-- ===== src/Oram/Untrusted.antt =====
-- fog/ocall_oram_storage/untrusted/src/lib.rs: the untrusted side. An item is as many bytes as the
-- allocation was created for, which is what the enclave's buffers hold. `none` is a failed assertion.
use fog.Prelude.{
  ℕ, ◌%◌, Bool, true, false, not, ◌||◌, Option, none, some, List, [], ◌∷◌, map, ◌==◌, if◌then◌else◌,
}
use fog.Prelude.Bytes.{Bytes}
use fog.Prelude.Lists.{replicate}

pub record UntrustedAllocation : Type 0 where
  pub count : ℕ
  pub data_item_size : ℕ
  pub meta_item_size : ℕ
  pub data_items : ℕ → Bytes
  pub meta_items : ℕ → Bytes
  pub critical_section_flag : Bool
  pub checkout_flag : Bool

-- The data that `alloc` finds is an argument; `alloc_zeroed` sets the metadata to zero.
unfoldable pub new : (ℕ → Bytes) → ℕ → ℕ → ℕ → Option UntrustedAllocation
new garbage count data_item_size meta_item_size =
    if not (data_item_size % 8 == 0) || not (meta_item_size % 8 == 0)
    then none
    else some (record {
      count = count;
      data_item_size = data_item_size;
      meta_item_size = meta_item_size;
      data_items = garbage;
      meta_items = λ index. replicate meta_item_size 0;
      critical_section_flag = false;
      checkout_flag = false;
    })

-- The flag of the critical section is set meanwhile and reset at the end.
unfoldable pub checkout_oram_storage :
    List ℕ → UntrustedAllocation → Option (List (Bytes × Bytes) × UntrustedAllocation)
checkout_oram_storage indices u =
    if u.critical_section_flag || u.checkout_flag
    then none
    else some (
      map (λ index. (u.data_items index, u.meta_items index)) indices,
      record u { checkout_flag = true },
    )

-- A copy to the item at an index.
abbrev pub put : (ℕ → Bytes) → ℕ → Bytes → ℕ → Bytes
put items index item j = if index == j then item else items j

abbrev pub put_all : List (ℕ × Bytes) → (ℕ → Bytes) → ℕ → Bytes
put_all [] items = items
put_all ((index, item) ∷ rest) items = put_all rest (put items index item)

unfoldable pub checkin_oram_storage :
    List (ℕ × Bytes × Bytes) → UntrustedAllocation → Option UntrustedAllocation
checkin_oram_storage items u =
    if u.critical_section_flag || not u.checkout_flag
    then none
    else some (record u {
      data_items = put_all (map (λ x. (x.0, x.1)) items) u.data_items;
      meta_items = put_all (map (λ x. (x.0, x.2)) items) u.meta_items;
      checkout_flag = false;
    })
