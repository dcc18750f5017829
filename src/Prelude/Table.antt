-- ===== src/Prelude/Table.antt =====
-- `std::unordered_map` keyed by texts, as the list of its entries. The order of the list is no
-- part of the map's behaviour: where the program lists keys, `HashOrder` says in which order they come.
use lanl_vir_parquet.Prelude.{Option, none, some, List, [], ◌∷◌, if◌then◌else◌}
use lanl_vir_parquet.Prelude.Text.{Text, text_eq}

abbrev pub Table : Type 0 → Type 0
Table A = List (Text × A)

-- The order in which the hash table, library code, walks the entries with these keys.
abbrev pub HashOrder : Type 0
HashOrder = List Text → List Text

-- `map.find(name)`
unfoldable pub find : {A : Type 0} → Text → Table A → Option A
find name [] = none
find name ((k, a) ∷ t) = if text_eq k name then some a else find name t

-- `map[name] = a`
unfoldable pub assign : {A : Type 0} → Text → A → Table A → Table A
assign name a [] = (name, a) ∷ []
assign name a ((k, b) ∷ t) = if text_eq k name then (k, a) ∷ t else (k, b) ∷ assign name a t

-- `map.emplace(name, a)`: an entry that is there stays as it is
unfoldable pub emplace : {A : Type 0} → Text → A → Table A → Table A
emplace name a [] = (name, a) ∷ []
emplace name a ((k, b) ∷ t) = if text_eq k name then (k, b) ∷ t else (k, b) ∷ emplace name a t

-- the keys
unfoldable pub keys : {A : Type 0} → Table A → List Text
keys [] = []
keys ((k, a) ∷ t) = k ∷ keys t
