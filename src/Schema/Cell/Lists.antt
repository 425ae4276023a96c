-- ===== src/Schema/Cell/Lists.antt =====
-- The recursion of `get_list_value` of src/schema/cell.rs.
use pg_analytics.Prelude.{ℕ, zero, suc, ◌<◌, arith, Option, some, ◌≡◌, refl, inl, inr, Option-cases}
use pg_analytics.Text.{str}
use pg_analytics.Result.{Result, ok, err, panic, Result-cases}
use pg_analytics.Schema.Cell.Types.{DataType, list, int}
use pg_analytics.Schema.Cell.Libraries.{Libraries, ListView, ArrowLaws}
use pg_analytics.Schema.Cell.Nested.{
  collect, value_or_null, nested_list, list_of, list_body, list_fueled, list_depth, get_list_value,
}

module _ (l : Libraries) where
  open l use {Array, data_type, Json, as_list}

  abbrev Getter : Type 0
  Getter = Array → ℕ → Result (Option Json)

  abbrev ran_out : Result (Option Json)
  ran_out = err (panic (str "out of fuel"))

  collect-same :
      (f g : ℕ → Result Json) (count i : ℕ)
      → ((j : ℕ) → f j ≡ g j)
      → collect l f count i ≡ collect l g count i
  unfolding collect
  collect-same f g zero i same = refl
  collect-same f g (suc count) i same = rw (same i, collect-same f g count (suc i) same) refl

  -- The two getters agree on the rows of a list array.
  nested_list-same :
      (f g : Getter) (view : ListView Array) (index : ℕ)
      → ((row : Array) (i : ℕ) → view.value index ≡ ok row → f row i ≡ g row i)
      → nested_list l f view index ≡ nested_list l g view index
  nested_list-same f g view index same = elim (Result-cases (view.value index)) [
    | inl (row, e) ↦
        rw
          (
            e,
            collect-same (value_or_null l f row) (value_or_null l g row) (l.len row) 0
                (λ j. rw (same row j e) refl),
          )
          refl
    | inr (failure, e) ↦ rw e refl
  ]

  list_of-same :
      (f g : Getter) (t : DataType) (view : ListView Array) (array : Array) (index : ℕ)
      → ((row : Array) (i : ℕ) (s : DataType)
          → t ≡ list s
          → view.value index ≡ ok row
          → f row i ≡ g row i)
      → list_of l f t view array index ≡ list_of l g t view array index
  unfolding list_of
  list_of-same f g (list s) view array index same =
      nested_list-same f g view index (λ row i e. same row i s refl e)
  list_of-same f g (int k) view array index same = ground arith
  list_of-same f g t view array index same = refl

  -- A row of a list of lists is less deep than the list.
  deeper :
      (laws : ArrowLaws l) (array row : Array) (view : ListView Array) (index : ℕ) (s : DataType)
      → as_list array ≡ some view
      → view.value_type ≡ list s
      → view.value index ≡ ok row
      → list_depth l (data_type row) < list_depth l (data_type array)
  unfolding list_depth
  deeper laws array row view index s e t-eq v-eq =
      rw (laws.list_value array row view index e v-eq, laws.list_type array view e, t-eq)
        (omega arith)

  list_body-same :
      (laws : ArrowLaws l) (f g : Getter) (array : Array) (index : ℕ)
      → ((row : Array) (i : ℕ)
          → list_depth l (data_type row) < list_depth l (data_type array)
          → f row i ≡ g row i)
      → list_body l f array index ≡ list_body l g array index
  unfolding list_body list_depth
  list_body-same laws f g array index same = elim (Option-cases (as_list array)) [
    | inl e ↦ rw e refl
    | inr (view, e) ↦
        let rows =
          list_of-same f g view.value_type view array index
            (λ row i s t-eq v-eq. same row i (deeper laws array row view index s e t-eq v-eq)) in
        rw (e, rows) refl
  ]

  -- With more fuel than lists are nested, neither the fuel nor its end matters.
  list_fueled-same :
      (laws : ArrowLaws l) (out end : Result (Option Json)) (n m : ℕ) (array : Array) (index : ℕ)
      → list_depth l (data_type array) < n
      → list_depth l (data_type array) < m
      → list_fueled l out n array index ≡ list_fueled l end m array index
  unfolding list_fueled
  list_fueled-same laws out end zero m array index hn hm = ground arith
  list_fueled-same laws out end (suc n) zero array index hn hm = ground arith
  list_fueled-same laws out end (suc n) (suc m) array index hn hm =
      list_body-same laws (list_fueled l out n) (list_fueled l end m) array index
        (λ row i d. list_fueled-same laws out end n m row i (omega arith) (omega arith))

  -- The recursion of `get_list_value` ends on every array. Whatever comes out when the fuel has run
  -- out, with fuel above the depth of the lists of the array it never does: the result is the same
  -- for each such fuel and each value of that kind, and it is what the body of the source gives with
  -- `get_list_value` itself as its recursive call.
  pub list_fueled-enough :
      (laws : ArrowLaws l) (out : Result (Option Json)) (fuel : ℕ) (array : Array) (index : ℕ)
      → list_depth l (data_type array) < fuel
      → (list_fueled l out fuel array index ≡ get_list_value l array index)
        × (list_fueled l out fuel array index ≡ list_body l (get_list_value l) array index)
  unfolding get_list_value list_fueled
  list_fueled-enough laws out zero array index enough = ground arith
  list_fueled-enough laws out (suc fuel) array index enough = (
    list_fueled-same laws out ran_out (suc fuel) (suc (list_depth l (data_type array))) array index
        enough (omega arith),
    list_body-same laws (list_fueled l out fuel) (get_list_value l) array index λ row i d.
        list_fueled-same laws out ran_out fuel (suc (list_depth l (data_type row))) row i
          (omega arith) (omega arith),
  )
