-- ===== src/Tests/Links.antt =====
-- The lists of lib/list.c: the ring of the head 100 and the nodes 200 and 300.
use finux.Prelude.{refl, [], ◌∷◌, update}
use finux.Links.{Links, list_del}
use finux.Links.Ring.{is_chain-Chain, IsRing, SameOutside}
use finux.Links.Remove.{list_del-IsRing}

abbrev ring3 : Links
ring3 = record {
  next = update (update (update (λ a. 0) 100 200) 200 300) 300 100;
  prev = update (update (update (λ a. 0) 100 300) 200 100) 300 200;
}

ring3-IsRing : IsRing ring3 100 (200 ∷ 300 ∷ [])
ring3-IsRing = record {
  chain = is_chain-Chain ring3 100 (200 ∷ 300 ∷ []) 100 refl;
  distinct = (refl, (refl, (refl, tt)));
}

list_del-IsRing_example :
    IsRing (list_del 200 ring3) 100 (300 ∷ [])
    × IsRing (list_del 200 ring3) 200 []
    × SameOutside (100 ∷ 200 ∷ 300 ∷ []) ring3 (list_del 200 ring3)
list_del-IsRing_example = list_del-IsRing [] (300 ∷ []) ring3-IsRing
