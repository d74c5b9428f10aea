-- ===== src/Layout/Tests.antt =====
-- Layouts of a few types, and the theorems on them.
use nitrate.Prelude.{ℕ, ◌<◌, ◌≡◌, ◌≢◌, refl, true, List, [], ◌∷◌, arith}
use nitrate.Hir.Ty.{
  Ty, Tys, bool, u8, u16, u32, array, tuple, struct, enum, reference, inferred_integer, PtrSize,
  packed, align, StructField,
}
use nitrate.Layout.{
  ok, err, not_inferred, out_of_fuel, LayoutCtx, get_align_of, get_size_of, get_stride_of,
}
use nitrate.Layout.Align.{IsAlign, get_align_of-IsAlign}
use nitrate.Layout.Stride.{Rounds, get_stride_of-Rounds}
use nitrate.Layout.Ranks.{Ranks, rank, is_ranked, ranked_from}
use nitrate.Layout.Total.{get_stride_of_total}

-- A list node refers to the next one. The alignment asked for its value is not read.
abbrev node_fields : List StructField
node_fields =
    record { attributes = []; name = "flag"; ty = u8 }
    ∷ record { attributes = []; name = "next"; ty = reference 0 true true (struct 0) }
    ∷ record { attributes = align 64 ∷ []; name = "value"; ty = u16 }
    ∷ []

abbrev ctx : LayoutCtx
ctx = record {
  ptr_size = PtrSize.u64;
  structs =
      record { attributes = []; fields = node_fields }
      ∷ record { attributes = packed ∷ []; fields = node_fields }
      ∷ [];
  enums =
      record {
        variants =
            record { name = "some"; ty = struct 0 } ∷ record { name = "none"; ty = Ty.unit } ∷ [];
      }
      ∷ [];
  aliases = record { type_id = array (struct 1) 3 } ∷ [];
}

node_size : get_size_of 2 ctx (struct 0) ≡ ok 18
unfolding get_size_of
node_size = refl

node_align : get_align_of 2 ctx (struct 0) ≡ ok 8
unfolding get_align_of
node_align = refl

layouts :
    (get_stride_of 2 ctx (struct 0) ≡ ok 24)
    × (get_size_of 2 ctx (struct 1) ≡ ok 11)
    × (get_size_of 4 ctx (enum 0) ≡ ok 19)
    × (get_size_of 4 ctx (Ty.type_alias 0) ≡ ok 33)
    × (get_size_of 4 ctx (array inferred_integer 0) ≡ err not_inferred)
    × (get_align_of 4 ctx (array inferred_integer 0) ≡ ok 1)
    × (get_size_of 4 ctx (tuple (Tys.◌∷◌ u8 (Tys.◌∷◌ u32 (Tys.◌∷◌ bool Tys.[])))) ≡ ok 9)
unfolding get_size_of get_align_of get_stride_of
layouts = (refl, refl, refl, refl, refl, refl, refl)

abbrev ranks : Ranks
ranks = record { of_struct = λ _. 0; of_enum = λ _. 1; of_alias = λ _. 2 }

ctx_ranked : is_ranked ranks ctx ≡ true
unfolding is_ranked ranked_from rank
ctx_ranked = refl

get_align_of-IsAlign_example : IsAlign 8
get_align_of-IsAlign_example = get_align_of-IsAlign 2 ctx (struct 0) 8 node_align

get_stride_of-Rounds_example : (s : ℕ) × (get_stride_of 2 ctx (struct 0) ≡ ok s) × Rounds 18 8 s
get_stride_of-Rounds_example =
    get_stride_of-Rounds 2 ctx (struct 0) 18 8 node_size node_align (omega arith)

enum_rank : rank ranks (enum 0) < 3
unfolding rank
enum_rank = omega arith

get_stride_of_total_example :
    (get_size_of 3 ctx (enum 0) ≢ out_of_fuel)
    × (get_align_of 3 ctx (enum 0) ≢ out_of_fuel)
    × (get_stride_of 3 ctx (enum 0) ≢ out_of_fuel)
get_stride_of_total_example = get_stride_of_total ranks ctx 3 (enum 0) ctx_ranked enum_rank
