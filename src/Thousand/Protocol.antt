-- ===== src/Thousand/Protocol.antt =====
-- src/lib/thousand_lib.py: `__init_database`, every signal with its place in the response.
use gateway_nexy.Base.{ℕ, [], ◌∷◌, ◌++◌}
use gateway_nexy.Base.Int.{pos, negsuc}
use gateway_nexy.Base.IntDict.{IntDict}
use gateway_nexy.Modbus.Registers.{str}
use gateway_nexy.Thousand.Signals.{
  Signal, SignalType, uint, wtime, byte, string, time, generic_text, vfd,
}

abbrev pub Database : Type 0
Database = IntDict Signal

-- `Signal("", name, bit_start, bit_size, byte_start, byte_size, signal_type)`
abbrev pub new_signal : ℕ → ℕ → ℕ → ℕ → SignalType → Signal
new_signal bit_start bit_size byte_start byte_size signal_type = record {
  value = str [];
  bit_start = bit_start;
  bit_size = bit_size;
  byte_start = byte_start;
  byte_size = byte_size;
  signal_type = signal_type;
}

abbrev pub signals_1 : Database
signals_1 =
    (pos 0, new_signal 0 0 0 39 generic_text)
    ∷ (pos 1, new_signal 0 0 0 39 generic_text)
    ∷ (pos 2, new_signal 0 32 0 4 time)
    ∷ (pos 3, new_signal 0 32 4 4 time)
    ∷ (pos 4, new_signal 0 160 8 20 string)
    ∷ (pos 5, new_signal 0 8 28 1 byte)
    ∷ (pos 6, new_signal 0 8 29 1 byte)
    ∷ (pos 7, new_signal 0 8 30 1 byte)
    ∷ (pos 8, new_signal 0 8 31 1 byte)
    ∷ (pos 9, new_signal 0 4 0 1 byte)
    ∷ (pos 10, new_signal 0 8 2 1 byte)
    ∷ (pos 11, new_signal 4 4 0 1 byte)
    ∷ (pos 12, new_signal 0 8 1 1 byte)
    ∷ (pos 13, new_signal 0 8 3 1 byte)
    ∷ (pos 14, new_signal 0 4 4 1 byte)
    ∷ (pos 15, new_signal 0 1 5 1 byte)
    ∷ (pos 16, new_signal 1 1 5 1 byte)
    ∷ (pos 17, new_signal 2 1 5 1 byte)
    ∷ (pos 18, new_signal 3 1 5 1 byte)
    ∷ (pos 19, new_signal 4 1 5 1 byte)
    ∷ (pos 146, new_signal 5 1 5 1 byte)
    ∷ (pos 20, new_signal 0 1 6 1 byte)
    ∷ (pos 21, new_signal 1 1 6 1 byte)
    ∷ (pos 22, new_signal 2 1 6 1 byte)
    ∷ (pos 23, new_signal 3 1 6 1 byte)
    ∷ (pos 24, new_signal 4 1 6 1 byte)
    ∷ (pos 147, new_signal 5 1 6 1 byte)
    ∷ (pos 25, new_signal 0 1 7 1 byte)
    ∷ (pos 26, new_signal 1 1 7 1 byte)
    ∷ (pos 27, new_signal 2 1 7 1 byte)
    ∷ (pos 28, new_signal 3 1 7 1 byte)
    ∷ (pos 29, new_signal 4 1 7 1 byte)
    ∷ (pos 148, new_signal 5 1 7 1 byte)
    ∷ (pos 30, new_signal 0 1 8 1 byte)
    ∷ (pos 31, new_signal 1 1 8 1 byte)
    ∷ (pos 32, new_signal 2 1 8 1 byte)
    ∷ (pos 33, new_signal 3 1 8 1 byte)
    ∷ (pos 34, new_signal 4 1 8 1 byte)
    ∷ (pos 149, new_signal 5 1 8 1 byte)
    ∷ (pos 35, new_signal 0 1 9 1 byte)
    ∷ (pos 36, new_signal 1 1 9 1 byte)
    ∷ (pos 37, new_signal 2 1 9 1 byte)
    ∷ (pos 38, new_signal 3 1 9 1 byte)
    ∷ (pos 39, new_signal 4 1 9 1 byte)
    ∷ (pos 150, new_signal 5 1 9 1 byte)
    ∷ (pos 40, new_signal 0 1 10 1 byte)
    ∷ []

abbrev pub signals_2 : Database
signals_2 =
    (pos 41, new_signal 1 1 10 1 byte)
    ∷ (pos 42, new_signal 2 1 10 1 byte)
    ∷ (pos 43, new_signal 3 1 10 1 byte)
    ∷ (pos 44, new_signal 4 1 10 1 byte)
    ∷ (pos 151, new_signal 5 1 10 1 byte)
    ∷ (pos 45, new_signal 0 1 13 1 byte)
    ∷ (pos 46, new_signal 1 1 13 1 byte)
    ∷ (pos 47, new_signal 2 1 13 1 byte)
    ∷ (pos 48, new_signal 4 1 13 1 byte)
    ∷ (pos 49, new_signal 5 1 13 1 byte)
    ∷ (pos 50, new_signal 6 1 13 1 byte)
    ∷ (pos 51, new_signal 7 1 13 1 byte)
    ∷ (pos 52, new_signal 2 1 14 1 byte)
    ∷ (pos 53, new_signal 3 1 14 1 byte)
    ∷ (pos 54, new_signal 4 1 14 1 byte)
    ∷ (pos 55, new_signal 5 1 14 1 byte)
    ∷ (pos 56, new_signal 6 1 14 1 byte)
    ∷ (pos 57, new_signal 0 1 15 1 byte)
    ∷ (pos 58, new_signal 1 1 15 1 byte)
    ∷ (pos 59, new_signal 2 1 15 1 byte)
    ∷ (pos 60, new_signal 3 1 15 1 byte)
    ∷ (pos 61, new_signal 4 1 15 1 byte)
    ∷ (pos 62, new_signal 6 1 15 1 byte)
    ∷ (pos 63, new_signal 7 1 15 1 byte)
    ∷ (pos 64, new_signal 0 1 16 1 byte)
    ∷ (pos 65, new_signal 1 1 16 1 byte)
    ∷ (pos 145, new_signal 5 1 16 1 byte)
    ∷ (pos 153, new_signal 6 1 16 1 byte)
    ∷ (pos 154, new_signal 7 1 16 1 byte)
    ∷ (pos 152, new_signal 0 0 0 0 byte)
    ∷ (pos 66, new_signal 0 32 32 4 uint)
    ∷ (pos 67, new_signal 0 32 36 4 uint)
    ∷ (pos 68, new_signal 0 32 0 4 wtime)
    ∷ (pos 69, new_signal 0 32 4 4 wtime)
    ∷ (pos 70, new_signal 0 32 8 4 wtime)
    ∷ (pos 71, new_signal 0 32 12 4 wtime)
    ∷ (pos 72, new_signal 0 32 16 4 wtime)
    ∷ (pos 73, new_signal 0 32 20 4 wtime)
    ∷ (pos 74, new_signal 0 32 24 4 wtime)
    ∷ (pos 75, new_signal 0 32 28 4 wtime)
    ∷ (pos 76, new_signal 0 32 32 4 wtime)
    ∷ (pos 77, new_signal 0 32 36 4 wtime)
    ∷ (pos 78, new_signal 0 32 40 4 wtime)
    ∷ (pos 79, new_signal 0 32 44 4 wtime)
    ∷ (pos 80, new_signal 0 32 48 4 wtime)
    ∷ (pos 81, new_signal 0 32 52 4 wtime)
    ∷ []

abbrev pub signals_3 : Database
signals_3 =
    (pos 82, new_signal 0 32 56 4 wtime)
    ∷ (pos 83, new_signal 0 32 60 4 wtime)
    ∷ (pos 84, new_signal 0 32 64 4 wtime)
    ∷ (pos 85, new_signal 0 32 68 4 wtime)
    ∷ (pos 86, new_signal 0 32 80 4 wtime)
    ∷ (pos 87, new_signal 0 32 84 4 wtime)
    ∷ (pos 88, new_signal 0 32 88 4 wtime)
    ∷ (pos 89, new_signal 0 32 92 4 wtime)
    ∷ (pos 90, new_signal 0 32 96 4 wtime)
    ∷ (pos 179, new_signal 0 16 4 2 uint)
    ∷ (pos 180, new_signal 0 16 6 2 uint)
    ∷ (pos 181, new_signal 0 16 12 2 uint)
    ∷ (pos 91, new_signal 0 16 0 2 uint)
    ∷ (pos 92, new_signal 0 16 26 2 uint)
    ∷ (negsuc 0, new_signal 0 16 0 2 uint)
    ∷ (negsuc 1, new_signal 0 16 2 2 uint)
    ∷ (pos 155, new_signal 0 0 0 0 uint)
    ∷ (pos 156, new_signal 0 0 0 0 uint)
    ∷ (pos 157, new_signal 0 0 0 0 uint)
    ∷ (pos 158, new_signal 0 0 0 0 uint)
    ∷ (pos 159, new_signal 0 0 0 0 uint)
    ∷ (pos 160, new_signal 0 0 0 0 uint)
    ∷ (pos 93, new_signal 0 8 0 1 byte)
    ∷ (pos 94, new_signal 0 8 1 1 byte)
    ∷ (pos 95, new_signal 0 8 2 1 byte)
    ∷ (pos 96, new_signal 0 8 3 1 byte)
    ∷ (pos 161, new_signal 0 8 4 1 byte)
    ∷ (pos 162, new_signal 0 8 5 1 byte)
    ∷ (pos 163, new_signal 0 8 6 1 byte)
    ∷ (pos 164, new_signal 0 8 7 1 byte)
    ∷ (pos 165, new_signal 0 8 8 1 byte)
    ∷ (pos 166, new_signal 0 8 9 1 byte)
    ∷ (pos 167, new_signal 0 8 10 1 byte)
    ∷ (pos 168, new_signal 0 8 11 1 byte)
    ∷ (pos 97, new_signal 0 16 0 2 uint)
    ∷ (pos 98, new_signal 0 16 2 2 uint)
    ∷ (pos 99, new_signal 0 16 4 2 uint)
    ∷ (pos 100, new_signal 0 16 6 2 uint)
    ∷ (pos 101, new_signal 0 16 8 2 uint)
    ∷ (pos 102, new_signal 0 16 10 2 uint)
    ∷ (pos 103, new_signal 0 16 12 2 uint)
    ∷ (pos 104, new_signal 0 16 14 2 uint)
    ∷ (pos 105, new_signal 0 16 16 2 uint)
    ∷ (pos 106, new_signal 0 16 18 2 uint)
    ∷ (pos 107, new_signal 0 16 20 2 uint)
    ∷ (pos 108, new_signal 0 16 22 2 uint)
    ∷ []

abbrev pub signals_4 : Database
signals_4 =
    (pos 109, new_signal 0 16 24 2 uint)
    ∷ (pos 110, new_signal 0 16 26 2 uint)
    ∷ (pos 111, new_signal 0 16 28 2 uint)
    ∷ (pos 112, new_signal 0 16 0 2 uint)
    ∷ (pos 113, new_signal 0 16 2 2 uint)
    ∷ (pos 114, new_signal 0 16 4 2 uint)
    ∷ (pos 115, new_signal 0 16 6 2 uint)
    ∷ (pos 116, new_signal 0 16 8 2 uint)
    ∷ (pos 117, new_signal 0 16 10 2 uint)
    ∷ (pos 118, new_signal 0 16 12 2 uint)
    ∷ (pos 119, new_signal 0 16 14 2 uint)
    ∷ (pos 120, new_signal 0 16 16 2 uint)
    ∷ (pos 121, new_signal 0 16 18 2 uint)
    ∷ (pos 122, new_signal 0 16 20 2 uint)
    ∷ (pos 123, new_signal 0 16 22 2 uint)
    ∷ (pos 124, new_signal 0 16 24 2 uint)
    ∷ (pos 125, new_signal 0 16 26 2 uint)
    ∷ (pos 126, new_signal 0 16 0 2 uint)
    ∷ (pos 127, new_signal 0 16 2 2 uint)
    ∷ (pos 128, new_signal 0 16 4 2 uint)
    ∷ (pos 129, new_signal 0 16 6 2 uint)
    ∷ (pos 130, new_signal 0 16 8 2 uint)
    ∷ (pos 131, new_signal 0 16 10 2 uint)
    ∷ (pos 132, new_signal 0 16 0 2 uint)
    ∷ (pos 133, new_signal 0 16 2 2 uint)
    ∷ (pos 134, new_signal 0 16 4 2 uint)
    ∷ (pos 135, new_signal 0 16 6 2 uint)
    ∷ (pos 136, new_signal 0 16 8 2 uint)
    ∷ (pos 137, new_signal 0 16 10 2 uint)
    ∷ (pos 138, new_signal 0 16 0 2 uint)
    ∷ (pos 139, new_signal 0 16 2 2 uint)
    ∷ (pos 140, new_signal 0 16 4 2 uint)
    ∷ (pos 141, new_signal 0 16 6 2 uint)
    ∷ (pos 142, new_signal 0 16 8 2 uint)
    ∷ (pos 143, new_signal 0 16 10 2 uint)
    ∷ (pos 144, new_signal 0 0 0 39 generic_text)
    ∷ (pos 170, new_signal 0 0 4 2 vfd)
    ∷ (pos 169, new_signal 0 0 4 2 vfd)
    ∷ (pos 172, new_signal 0 0 4 2 vfd)
    ∷ (pos 171, new_signal 0 0 4 2 vfd)
    ∷ (pos 173, new_signal 0 32 0 4 uint)
    ∷ (pos 174, new_signal 0 32 4 4 uint)
    ∷ (pos 175, new_signal 0 32 8 4 uint)
    ∷ (pos 176, new_signal 0 32 12 4 uint)
    ∷ (pos 177, new_signal 0 32 16 4 uint)
    ∷ (pos 178, new_signal 0 32 20 4 uint)
    ∷ []

-- `__init_database`
unfoldable pub init_database : Database
init_database = signals_1 ++ (signals_2 ++ (signals_3 ++ signals_4))
