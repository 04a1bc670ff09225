-- ===== src/Usgs/Cursor/Tests.antt =====
-- The two cursor stores at the calls of a poll.
use sentinel_chain.Base.{arith, String, ◌≡◌, refl, inl, none, some, List, [], ◌∷◌}
use sentinel_chain.Base.Int.{pos, negsuc}
use sentinel_chain.Base.Result.{ok}
use sentinel_chain.Base.Dict.{lookup, insert}
use sentinel_chain.Samples.Stores.{Keys, expire, dict_redis, dict_redis_laws}
use sentinel_chain.Base.Exec.{◌>>=◌}
use sentinel_chain.Usgs.Cursor.{InMemory, in_memory, redis_store}
use sentinel_chain.Usgs.Cursor.Calls.{
  CursorCall, see, mark, read_cursor, write_cursor, marker, done, cursor, answers_of,
}
use sentinel_chain.Usgs.Cursor.Refines.{Represents, AreAnswers, answers_of-AreAnswers}

abbrev calls : List CursorCall
calls =
    see "us1"
    ∷ mark "us1" "1:a"
    ∷ mark "us2" "1:b"
    ∷ write_cursor (negsuc 4)
    ∷ see "us1"
    ∷ read_cursor
    ∷ see "us2"
    ∷ []

abbrev empty_memory : InMemory
empty_memory = record { markers = []; cursor_ms = none }

memory_answers :
    answers_of (in_memory String) calls empty_memory
    ≡ ok (marker none)
      ∷ ok done
      ∷ ok done
      ∷ ok done
      ∷ ok (marker (some "1:a"))
      ∷ ok (cursor (some (negsuc 4)))
      ∷ ok (marker (some "1:b"))
      ∷ []
unfolding answers_of lookup insert
memory_answers = refl

-- Markers last for two reads.
abbrev no_keys : Keys
no_keys = record { entries = []; reads_left = 0 }

empty-Represents : Represents dict_redis_laws (pos 2) no_keys empty_memory
unfolding lookup
empty-Represents = record { markers = λ id. inl refl; at_cursor = refl; lasts = tt }

-- The second marker has expired when it is read.
redis_answers :
    answers_of (redis_store dict_redis (pos 2)) calls no_keys
    ≡ ok (marker none)
      ∷ ok done
      ∷ ok done
      ∷ ok done
      ∷ ok (marker (some "1:a"))
      ∷ ok (cursor (some (negsuc 4)))
      ∷ ok (marker none)
      ∷ []
unfolding answers_of lookup insert expire ◌>>=◌
redis_answers = refl

answers_of-AreAnswers_example :
    AreAnswers
      (answers_of (redis_store dict_redis (pos 2)) calls no_keys)
      (answers_of (in_memory String) calls empty_memory)
answers_of-AreAnswers_example =
    answers_of-AreAnswers dict_redis_laws (pos 2) calls no_keys empty_memory omega arith
      empty-Represents
