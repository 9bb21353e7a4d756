-- ===== src/Network/Tiles/Join.antt =====
-- numtoy-core/src/network.rs: what `reassemble` makes of the results that came back.
use num_toy.Prelude.{ℕ, ◌≡◌, refl, sym, ◌∙◌, ap, ap₂, List, [], ◌∷◌, ◌++◌, none, ok, append_assoc}
use num_toy.Network.Tiles.{Tile, TileResult, find_result, result_bytes, remote_outputs, reassemble}

-- Every tile's result is there, and holds what the tile stands for.
abbrev pub AllAnswered : (Tile → List ℕ) → List TileResult → List Tile → Type 0
AllAnswered meaning results [] = Unit
AllAnswered meaning results (t ∷ ts) =
    (result_bytes (find_result results t.id) ≡ meaning t) × AllAnswered meaning results ts

abbrev pub all_bytes : (Tile → List ℕ) → List Tile → List ℕ
all_bytes meaning [] = []
all_bytes meaning (t ∷ ts) = meaning t ++ all_bytes meaning ts

remote_outputs-all :
    (meaning : Tile → List ℕ) (results : List TileResult) (tiles : List Tile)
    → AllAnswered meaning results tiles
    → remote_outputs results tiles ≡ all_bytes meaning tiles
unfolding remote_outputs
remote_outputs-all meaning results [] h = refl
remote_outputs-all meaning results (t ∷ ts) (h, hs) =
    ap₂ (λ xs ys. xs ++ ys) h (remote_outputs-all meaning results ts hs)

-- Where the result of every remote tile came back, in whatever order, the output is the bytes of
-- all the tiles in the order of the tiles.
pub reassemble-all :
    (meaning : Tile → List ℕ) (results : List TileResult) (local : Tile) (tiles : List Tile)
    → AllAnswered meaning results tiles
    → reassemble (meaning local) results (local ∷ tiles) ≡ ok (all_bytes meaning (local ∷ tiles))
unfolding reassemble
reassemble-all meaning results local tiles h =
    ap (λ ys. ok (meaning local ++ ys)) (remote_outputs-all meaning results tiles h)

remote_outputs-append :
    (results : List TileResult) (ts us : List Tile)
    → remote_outputs results (ts ++ us) ≡ remote_outputs results ts ++ remote_outputs results us
unfolding remote_outputs
remote_outputs-append results [] us = refl
remote_outputs-append results (t ∷ ts) us =
    ap (λ ys. result_bytes (find_result results t.id) ++ ys) (remote_outputs-append results ts us)
    ∙ sym (
        append_assoc (result_bytes (find_result results t.id)) (remote_outputs results ts)
          (remote_outputs results us))

remote_outputs-missing :
    (results : List TileResult) (t : Tile) (ts : List Tile)
    → find_result results t.id ≡ none
    → remote_outputs results (t ∷ ts) ≡ remote_outputs results ts
unfolding remote_outputs
remote_outputs-missing results t ts h = ap (λ r. result_bytes r ++ remote_outputs results ts) h

-- A remote tile without a result leaves no bytes at all: the output is the one for the order without
-- that tile, so that the results after it stand too early.
pub reassemble-missing :
    (local_output : List ℕ) (results : List TileResult) (local missing : Tile)
    (before after : List Tile)
    → find_result results missing.id ≡ none
    → reassemble local_output results (local ∷ (before ++ missing ∷ after))
      ≡ reassemble local_output results (local ∷ (before ++ after))
unfolding reassemble
reassemble-missing local_output results local missing before after h =
    ap (λ ys. ok (local_output ++ ys))
      (remote_outputs-append results before (missing ∷ after)
        ∙ ap (λ ys. remote_outputs results before ++ ys)
            (remote_outputs-missing results missing after h)
        ∙ sym (remote_outputs-append results before after))
