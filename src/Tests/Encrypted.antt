-- ===== src/Tests/Encrypted.antt =====
-- Examples of the theorems on the encrypting wrapper.
use tabby_sync.Common.{
  ℕ, ◌<◌, pos, eqb_ℤ, Bytes, bytes_eq, none, some, Option, [], ◌∷◌, ◌≡◌, ◌≢◌, refl, arith, false,
  find?, Bool,
}
use tabby_sync.Store.{
  CreateConfigPlaintextInput, UpdateConfigPlaintextPatch, ConfigWithPlaintext, ok,
}
use tabby_sync.Sqlite.Driver.{Db, healthy}
use tabby_sync.Sqlite.{addressed, build_config, max_int64}
use tabby_sync.Crypto.{decrypt, derive_subkey}
use tabby_sync.Encrypted.{
  to_plaintext, open_row, update_loop, get_config_plaintext, is_change, differs,
}
use tabby_sync.Encrypted.RoundTrip.{Created, create-get}
use tabby_sync.Encrypted.Merge.{merged}
use tabby_sync.Encrypted.Patch.{update_loop_change, update_loop_idle, goal, idle_rows}
use tabby_sync.Tests.{
  toy, toy-IsAead, sample_key, sample_nonce, clock, row1, sample_db, sample_db-IsSound,
}
use tabby_sync.Encrypted.Retry.{update_loop-ends}

abbrev input : CreateConfigPlaintextInput
input = record { name = 98 ∷ []; content = 1 ∷ 2 ∷ []; last_used_with_version = [] }

room : sample_db.seq < max_int64
room = omega arith

create-get_example :
    Created toy toy-IsAead sample_key refl clock
      (pos 7)
      sample_nonce
      refl
      input
      sample_db
      sample_db-IsSound
      room
create-get_example =
    create-get toy toy-IsAead sample_key refl clock (pos 7) sample_nonce refl input sample_db
      sample_db-IsSound room

found1 : find? (addressed (pos 7) (pos 1)) sample_db.rows ≡ some row1
unfolding find? addressed eqb_ℤ
found1 = refl

abbrev current : ConfigWithPlaintext
current = to_plaintext (build_config row1 5 9) (120 ∷ [])

readable :
    open_row toy (healthy clock) sample_key (pos 7) (pos 1) (build_config row1 5 9) ≡ ok current
unfolding open_row decrypt derive_subkey build_config
readable = refl

abbrev edit : UpdateConfigPlaintextPatch
edit = record { name = none; content = some (121 ∷ []); last_used_with_version = none }

abbrev same_name : UpdateConfigPlaintextPatch
same_name = record {
  name = some (97 ∷ []);
  content = none;
  last_used_with_version = some (49 ∷ []);
}

abbrev goes : ℕ → Bool
goes n = false

abbrev alone : ℕ → Db → Db
alone n db = db

abbrev drawn : ℕ → Option Bytes
drawn n = some sample_nonce

abbrev edited : ℕ → ConfigWithPlaintext
edited t = merged toy sample_key clock (pos 7) (pos 1) row1 5 9 refl refl current readable edit t

update_loop_change_example :
    (t : ℕ) × (end : Db) × (current.modified_at < t)
    × (update_loop toy
          (healthy clock)
          sample_key
          (pos 7)
          goes
          alone
          drawn
          (pos 1)
          edit
          1
          0
          sample_db
        ≡ some (ok (edited t), end))
    × ((get_config_plaintext toy (healthy clock) sample_key (pos 7) (pos 1) end).0 ≡ ok (edited t))
update_loop_change_example =
    update_loop_change toy sample_key clock (pos 7) (pos 1) row1 5 9 refl refl sample_db found1
      current readable edit toy-IsAead refl sample_nonce refl goes alone drawn refl (λ d. refl) refl
      (unfold is_change differs bytes_eq to_plaintext in refl)

idle : is_change toy (healthy clock) sample_key (pos 7) same_name current ≡ false
unfolding is_change differs bytes_eq to_plaintext build_config
idle = refl

update_loop_idle_example :
    (end : Db) × (update_loop toy
        (healthy clock)
        sample_key
        (pos 7)
        goes
        alone
        drawn
        (pos 1)
        same_name
        1
        0
        sample_db
      ≡ some (
        ok (
            goal toy sample_key clock
              (pos 7)
              (pos 1)
              row1
              5
              9
              refl
              refl
              sample_db
              found1
              current
              readable
              same_name
              idle),
        end,
      ))
    × (end.rows
        ≡ idle_rows toy sample_key clock
            (pos 7)
            (pos 1)
            row1
            5
            9
            refl
            refl
            sample_db
            found1
            current
            readable
            same_name
            idle)
update_loop_idle_example =
    update_loop_idle toy sample_key clock (pos 7) (pos 1) row1 5 9 refl refl sample_db found1
      current readable same_name idle goes alone drawn refl (λ d. refl)

update_loop-ends_example :
    update_loop toy
      (healthy clock)
      sample_key
      (pos 7)
      goes
      alone
      drawn
      (pos 1)
      same_name
      4
      0
      sample_db
    ≢ none
update_loop-ends_example =
    update_loop-ends toy (healthy clock) sample_key (pos 7) (pos 1) goes alone drawn same_name 3 0
      sample_db (λ db. refl)
