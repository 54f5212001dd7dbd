-- ===== src/Bglib/Classes.antt =====
-- The tables of BLEGatewayClient/cmd_def.c that find a message by class and command: an entry
-- `&apis[i]` is its index `i`.
use io_tblegateway.Common.{ℕ, List, [], ◌∷◌}
use io_tblegateway.Bglib.Types.{ClassHandlers}

ble_class_system_rsp_handlers : List ℕ
ble_class_system_rsp_handlers =
    105 ∷ 106 ∷ 107 ∷ 108 ∷ 109 ∷ 110 ∷ 111 ∷ 112 ∷ 113 ∷ 114 ∷ 115 ∷ 116 ∷ 117 ∷ 118 ∷ 119 ∷ 120
    ∷ 121 ∷ 122 ∷ []

ble_class_system_evt_handlers : List ℕ
ble_class_system_evt_handlers = 210 ∷ 211 ∷ 212 ∷ 213 ∷ 214 ∷ 215 ∷ 216 ∷ []

ble_class_flash_rsp_handlers : List ℕ
ble_class_flash_rsp_handlers = 123 ∷ 124 ∷ 125 ∷ 126 ∷ 127 ∷ 128 ∷ 129 ∷ 130 ∷ 131 ∷ []

ble_class_flash_evt_handlers : List ℕ
ble_class_flash_evt_handlers = 217 ∷ []

ble_class_attributes_rsp_handlers : List ℕ
ble_class_attributes_rsp_handlers = 132 ∷ 133 ∷ 134 ∷ 135 ∷ 136 ∷ 137 ∷ []

ble_class_attributes_evt_handlers : List ℕ
ble_class_attributes_evt_handlers = 218 ∷ 219 ∷ 220 ∷ []

ble_class_connection_rsp_handlers : List ℕ
ble_class_connection_rsp_handlers = 138 ∷ 139 ∷ 140 ∷ 141 ∷ 142 ∷ 143 ∷ 144 ∷ 145 ∷ 146 ∷ []

ble_class_connection_evt_handlers : List ℕ
ble_class_connection_evt_handlers = 221 ∷ 222 ∷ 223 ∷ 224 ∷ 225 ∷ []

ble_class_attclient_rsp_handlers : List ℕ
ble_class_attclient_rsp_handlers =
    147 ∷ 148 ∷ 149 ∷ 150 ∷ 151 ∷ 152 ∷ 153 ∷ 154 ∷ 155 ∷ 156 ∷ 157 ∷ 158 ∷ []

ble_class_attclient_evt_handlers : List ℕ
ble_class_attclient_evt_handlers = 226 ∷ 227 ∷ 228 ∷ 229 ∷ 230 ∷ 231 ∷ 232 ∷ []

ble_class_sm_rsp_handlers : List ℕ
ble_class_sm_rsp_handlers = 159 ∷ 160 ∷ 161 ∷ 162 ∷ 163 ∷ 164 ∷ 165 ∷ 166 ∷ []

ble_class_sm_evt_handlers : List ℕ
ble_class_sm_evt_handlers = 233 ∷ 234 ∷ 235 ∷ 236 ∷ 237 ∷ []

ble_class_gap_rsp_handlers : List ℕ
ble_class_gap_rsp_handlers = 167 ∷ 168 ∷ 169 ∷ 170 ∷ 171 ∷ 172 ∷ 173 ∷ 174 ∷ 175 ∷ 176 ∷ 177 ∷ []

ble_class_gap_evt_handlers : List ℕ
ble_class_gap_evt_handlers = 238 ∷ 239 ∷ []

ble_class_hardware_rsp_handlers : List ℕ
ble_class_hardware_rsp_handlers =
    178 ∷ 179 ∷ 180 ∷ 181 ∷ 182 ∷ 183 ∷ 184 ∷ 185 ∷ 186 ∷ 187 ∷ 188 ∷ 189 ∷ 190 ∷ 191 ∷ 192 ∷ 193
    ∷ 194 ∷ 195 ∷ 196 ∷ 197 ∷ 198 ∷ []

ble_class_hardware_evt_handlers : List ℕ
ble_class_hardware_evt_handlers = 240 ∷ 241 ∷ 242 ∷ 243 ∷ []

ble_class_test_rsp_handlers : List ℕ
ble_class_test_rsp_handlers = 199 ∷ 200 ∷ 201 ∷ 202 ∷ 203 ∷ 204 ∷ 205 ∷ []

ble_class_dfu_rsp_handlers : List ℕ
ble_class_dfu_rsp_handlers = 206 ∷ 207 ∷ 208 ∷ 209 ∷ []

ble_class_dfu_evt_handlers : List ℕ
ble_class_dfu_evt_handlers = 244 ∷ []

unfoldable pub ble_class_rsp_handlers : List ClassHandlers
unfolding ble_class_system_rsp_handlers ble_class_flash_rsp_handlers
    ble_class_attributes_rsp_handlers ble_class_connection_rsp_handlers
    ble_class_attclient_rsp_handlers ble_class_sm_rsp_handlers ble_class_gap_rsp_handlers
    ble_class_hardware_rsp_handlers ble_class_test_rsp_handlers ble_class_dfu_rsp_handlers
ble_class_rsp_handlers =
    record { msgs = ble_class_system_rsp_handlers; maxhandlers = 18 }
    ∷ record { msgs = ble_class_flash_rsp_handlers; maxhandlers = 9 }
    ∷ record { msgs = ble_class_attributes_rsp_handlers; maxhandlers = 6 }
    ∷ record { msgs = ble_class_connection_rsp_handlers; maxhandlers = 9 }
    ∷ record { msgs = ble_class_attclient_rsp_handlers; maxhandlers = 12 }
    ∷ record { msgs = ble_class_sm_rsp_handlers; maxhandlers = 8 }
    ∷ record { msgs = ble_class_gap_rsp_handlers; maxhandlers = 11 }
    ∷ record { msgs = ble_class_hardware_rsp_handlers; maxhandlers = 21 }
    ∷ record { msgs = ble_class_test_rsp_handlers; maxhandlers = 7 }
    ∷ record { msgs = ble_class_dfu_rsp_handlers; maxhandlers = 4 }
    ∷ []

unfoldable pub ble_class_evt_handlers : List ClassHandlers
unfolding ble_class_system_evt_handlers ble_class_flash_evt_handlers
    ble_class_attributes_evt_handlers ble_class_connection_evt_handlers
    ble_class_attclient_evt_handlers ble_class_sm_evt_handlers ble_class_gap_evt_handlers
    ble_class_hardware_evt_handlers ble_class_dfu_evt_handlers
ble_class_evt_handlers =
    record { msgs = ble_class_system_evt_handlers; maxhandlers = 7 }
    ∷ record { msgs = ble_class_flash_evt_handlers; maxhandlers = 1 }
    ∷ record { msgs = ble_class_attributes_evt_handlers; maxhandlers = 3 }
    ∷ record { msgs = ble_class_connection_evt_handlers; maxhandlers = 5 }
    ∷ record { msgs = ble_class_attclient_evt_handlers; maxhandlers = 7 }
    ∷ record { msgs = ble_class_sm_evt_handlers; maxhandlers = 5 }
    ∷ record { msgs = ble_class_gap_evt_handlers; maxhandlers = 2 }
    ∷ record { msgs = ble_class_hardware_evt_handlers; maxhandlers = 4 }
    ∷ record { msgs = []; maxhandlers = 0 }
    ∷ record { msgs = ble_class_dfu_evt_handlers; maxhandlers = 1 }
    ∷ []
