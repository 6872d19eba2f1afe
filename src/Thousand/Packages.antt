-- ===== src/Thousand/Packages.antt =====
-- src/lib/thousand_lib.py: the parameters of each package of signals, as the enums list them.
use gateway_nexy.Base.{List, [], ◌∷◌}
use gateway_nexy.Base.Int.{ℤ, pos, negsuc}

abbrev pub params_lift_ar : List ℤ
params_lift_ar = pos 0 ∷ []

abbrev pub params_lift_type : List ℤ
params_lift_type = pos 1 ∷ []

abbrev pub params_lift_name : List ℤ
params_lift_name = pos 144 ∷ []

abbrev pub params_version : List ℤ
params_version =
    pos 93
    ∷ pos 94
    ∷ pos 95
    ∷ pos 96
    ∷ pos 161
    ∷ pos 162
    ∷ pos 163
    ∷ pos 164
    ∷ pos 165
    ∷ pos 166
    ∷ pos 167
    ∷ pos 168
    ∷ []

abbrev pub params_virtual : List ℤ
params_virtual = pos 9 ∷ pos 57 ∷ pos 92 ∷ pos 152 ∷ []

abbrev pub params_2 : List ℤ
params_2 = pos 2 ∷ pos 3 ∷ pos 4 ∷ pos 5 ∷ pos 6 ∷ pos 7 ∷ pos 8 ∷ []

abbrev pub params_130 : List ℤ
params_130 =
    pos 10
    ∷ pos 11
    ∷ pos 12
    ∷ pos 13
    ∷ pos 14
    ∷ pos 15
    ∷ pos 16
    ∷ pos 17
    ∷ pos 18
    ∷ pos 19
    ∷ pos 146
    ∷ pos 20
    ∷ pos 21
    ∷ pos 22
    ∷ pos 23
    ∷ pos 24
    ∷ pos 147
    ∷ pos 25
    ∷ pos 26
    ∷ pos 27
    ∷ pos 28
    ∷ pos 29
    ∷ pos 148
    ∷ pos 30
    ∷ pos 31
    ∷ pos 32
    ∷ pos 33
    ∷ pos 34
    ∷ pos 149
    ∷ pos 35
    ∷ pos 36
    ∷ pos 37
    ∷ pos 38
    ∷ pos 39
    ∷ pos 150
    ∷ pos 40
    ∷ pos 41
    ∷ pos 42
    ∷ pos 43
    ∷ pos 44
    ∷ pos 151
    ∷ pos 45
    ∷ pos 46
    ∷ pos 47
    ∷ pos 48
    ∷ pos 49
    ∷ pos 50
    ∷ pos 51
    ∷ pos 52
    ∷ pos 53
    ∷ pos 54
    ∷ pos 55
    ∷ pos 56
    ∷ pos 58
    ∷ pos 59
    ∷ pos 60
    ∷ pos 61
    ∷ pos 62
    ∷ pos 63
    ∷ pos 64
    ∷ pos 65
    ∷ pos 145
    ∷ pos 153
    ∷ pos 154
    ∷ []

abbrev pub params_131 : List ℤ
params_131 =
    pos 68
    ∷ pos 69
    ∷ pos 70
    ∷ pos 71
    ∷ pos 72
    ∷ pos 73
    ∷ pos 74
    ∷ pos 75
    ∷ pos 76
    ∷ pos 77
    ∷ pos 78
    ∷ pos 79
    ∷ pos 80
    ∷ pos 81
    ∷ pos 82
    ∷ pos 83
    ∷ pos 84
    ∷ pos 85
    ∷ pos 86
    ∷ pos 87
    ∷ pos 88
    ∷ pos 89
    ∷ pos 90
    ∷ []

abbrev pub params_133 : List ℤ
params_133 = pos 179 ∷ pos 180 ∷ pos 181 ∷ []

abbrev pub params_134 : List ℤ
params_134 = pos 91 ∷ pos 66 ∷ pos 67 ∷ []

abbrev pub params_135 : List ℤ
params_135 = negsuc 0 ∷ negsuc 1 ∷ []

abbrev pub params_read_file_param : List ℤ
params_read_file_param =
    pos 97
    ∷ pos 98
    ∷ pos 99
    ∷ pos 100
    ∷ pos 101
    ∷ pos 102
    ∷ pos 103
    ∷ pos 104
    ∷ pos 105
    ∷ pos 106
    ∷ pos 107
    ∷ pos 108
    ∷ pos 109
    ∷ pos 110
    ∷ pos 111
    ∷ []

abbrev pub params_read_file_intern : List ℤ
params_read_file_intern =
    pos 112
    ∷ pos 113
    ∷ pos 114
    ∷ pos 115
    ∷ pos 116
    ∷ pos 117
    ∷ pos 118
    ∷ pos 119
    ∷ pos 120
    ∷ pos 121
    ∷ pos 122
    ∷ pos 123
    ∷ pos 124
    ∷ pos 125
    ∷ []

abbrev pub params_read_file_node : List ℤ
params_read_file_node = pos 126 ∷ pos 127 ∷ pos 128 ∷ pos 129 ∷ pos 130 ∷ pos 131 ∷ []

abbrev pub params_read_file_lock : List ℤ
params_read_file_lock = pos 132 ∷ pos 133 ∷ pos 134 ∷ pos 135 ∷ pos 136 ∷ pos 137 ∷ []

abbrev pub params_read_file_door : List ℤ
params_read_file_door = pos 138 ∷ pos 139 ∷ pos 140 ∷ pos 141 ∷ pos 142 ∷ pos 143 ∷ []

abbrev pub params_door_closing_time : List ℤ
params_door_closing_time = pos 155 ∷ pos 156 ∷ pos 157 ∷ pos 158 ∷ pos 159 ∷ pos 160 ∷ []

abbrev pub params_vfd_result : List ℤ
params_vfd_result = pos 169 ∷ pos 170 ∷ pos 171 ∷ pos 172 ∷ []

abbrev pub params_door_open_count : List ℤ
params_door_open_count = pos 173 ∷ pos 174 ∷ pos 175 ∷ pos 176 ∷ pos 177 ∷ pos 178 ∷ []
