-- ===== src/Dao/Tables.antt =====
-- dao/mysql_phone_postion.go: the tables of positions, from the rows that the database answers.
pub mod Cached
use cdrrs.Base.{Bool, List, [], ◌∷◌, Option, none, some, if◌then◌else◌, equal, Bytes}
use cdrrs.Model.Position.{PhonePosition, Positions, cache_number_positions}

-- `mp[k] = val`.
abbrev pub assign :
    Bytes → PhonePosition → (Bytes → Option PhonePosition) → Bytes → Option PhonePosition
assign k val mp j = if equal k j then some val else mp j

-- The loop over the rows, with the column that is the key.
unfoldable pub cached :
    (PhonePosition → Bytes)
    → List PhonePosition
    → (Bytes → Option PhonePosition)
    → Bytes
    → Option PhonePosition
cached key [] mp = mp
cached key (val ∷ pps) mp = cached key pps (assign (key val) val mp)

unfoldable pub cache_fixed_position : List PhonePosition → Bytes → Option PhonePosition
unfolding cached
cache_fixed_position pps = cached (λ val. val.code1) pps (λ k. none)

unfoldable pub cache_mobile_position : List PhonePosition → Bytes → Option PhonePosition
unfolding cached
cache_mobile_position pps = cached (λ val. val.phone) pps (λ k. none)

-- `model.CacheNumberPositions(dao.CacheNumberPositions())`; neither function returns an error.
unfoldable pub number_positions : List PhonePosition → List PhonePosition → Positions
unfolding cache_number_positions cache_fixed_position cache_mobile_position
number_positions fixed_rows mobile_rows =
    cache_number_positions (cache_mobile_position mobile_rows) (cache_fixed_position fixed_rows)
