-- ===== src/Gateway/Gatt/First.antt =====
-- The first cases of `GetGATTDescriptions` of BLEGatewayApplication/GATT_SPECIFICATIONS.cpp.
use io_tblegateway.Common.{ℕ, List, [], ◌∷◌}
use Prim.Native.String.{String}

abbrev pub first_descriptions : List (ℕ × String)
first_descriptions =
    (0x2800, "GATT Primary Service Declaration")
    ∷ (0x2801, "GATT Secondary Service Declaration")
    ∷ (0x2802, "GATT Include Declaration")
    ∷ (0x2803, "GATT Characteristic Declaration")
    ∷ (0x2900, "Characteristic Extended Properties")
    ∷ (0x2901, "Characteristic User Description")
    ∷ (0x2902, "Client Characteristic Configuration")
    ∷ (0x2903, "Server Characteristic Configuration")
    ∷ (0x2904, "Characteristic Presentation Format")
    ∷ (0x2905, "Characteristic Aggregate Format")
    ∷ (0x2906, "Valid Range")
    ∷ (0x2907, "External Report Reference")
    ∷ (0x2908, "Report Reference")
    ∷ (0x290B, "Environmental Sensing Configuration\t")
    ∷ (0x290C, "Environmental Sensing Measurement")
    ∷ (0x290D, "Environmental Sensing Trigger Setting\t")
    ∷ (0x2909, "Number of Digitals")
    ∷ (0x290A, "Value Trigger Setting")
    ∷ (0x290E, "Time Trigger Setting")
    ∷ (0x2A7E, "Aerobic Heart Rate Lower Limit")
    ∷ (0x2A84, "Aerobic Heart Rate Upper Limit")
    ∷ (0x2A7F, "Aerobic Threshold")
    ∷ (0x2A80, "Age")
    ∷ (0x2A43, "Alert Category ID")
    ∷ (0x2A42, "Alert Category ID Bit Mask")
    ∷ (0x2A06, "Alert Level")
    ∷ (0x2A44, "Alert Notification Control Point")
    ∷ (0x2A3F, "Alert Status")
    ∷ (0x2AB3, "Altitude")
    ∷ (0x2A81, "Anaerobic Heart Rate Lower Limit")
    ∷ (0x2A82, "Anaerobic Heart Rate Upper Limit")
    ∷ (0x2A83, "Anaerobic Threshold")
    ∷ (0x2A73, "Apparent Wind Direction ")
    ∷ (0x2A72, "Apparent Wind Speed")
    ∷ (0x2A01, "Appearance")
    ∷ (0x2AA3, "Barometric Pressure Trend")
    ∷ (0x2A19, "Battery Level")
    ∷ (0x2A49, "Blood Pressure Feature")
    ∷ (0x2A35, "Blood Pressure Measurement")
    ∷ (0x2A9B, "Body Composition Feature")
    ∷ (0x2A9C, "Body Composition Measurement")
    ∷ (0x2A38, "Body Sensor Location")
    ∷ (0x2AA4, "Bond Management Control Point")
    ∷ (0x2AA5, "Bond Management Feature")
    ∷ (0x2A22, "Boot Keyboard Input Report")
    ∷ (0x2A32, "Boot Keyboard Output Report")
    ∷ (0x2A33, "Boot Mouse Input Report")
    ∷ (0x2AA6, "Central Address Resolution")
    ∷ (0x2AA8, "CGM Feature")
    ∷ (0x2AA7, "CGM Measurement")
    ∷ (0x2AAB, "CGM Session Run Time")
    ∷ (0x2AAA, "CGM Session Start Time")
    ∷ (0x2AAC, "CGM Specific Ops Control Point")
    ∷ (0x2AA9, "CGM Status")
    ∷ (0x2A5C, "CSC Feature")
    ∷ (0x2A5B, "CSC Measurement")
    ∷ (0x2A2B, "Current Time")
    ∷ (0x2A66, "Cycling Power Control Point")
    ∷ (0x2A65, "Cycling Power Feature")
    ∷ (0x2A63, "Cycling Power Measurement")
    ∷ (0x2A64, "Cycling Power Vector")
    ∷ (0x2A99, "Database Change Increment")
    ∷ (0x2A85, "Date of Birth")
    ∷ (0x2A86, "Date of Threshold Assessment ")
    ∷ (0x2A08, "Date Time")
    ∷ (0x2A0A, "Day Date Time")
    ∷ (0x2A09, "Day of Week")
    ∷ (0x2A7D, "Descriptor Value Changed")
    ∷ (0x2A00, "Device Name")
    ∷ (0x2A7B, "Dew Point")
    ∷ (0x2A0D, "DST Offset")
    ∷ (0x2A6C, "Elevation")
    ∷ (0x2A87, "Email Address")
    ∷ (0x2A0C, "Exact Time 256")
    ∷ (0x2A88, "Fat Burn Heart Rate Lower Limit")
    ∷ (0x2A89, "Fat Burn Heart Rate Upper Limit")
    ∷ (0x2A26, "Firmware Revision String")
    ∷ (0x2A8A, "First Name")
    ∷ (0x2A8B, "Five Zone Heart Rate Limits")
    ∷ (0x2AB2, "Floor Number")
    ∷ (0x2A8C, "Gender")
    ∷ (0x2A51, "Glucose Feature")
    ∷ (0x2A18, "Glucose Measurement")
    ∷ (0x2A34, "Glucose Measurement Context")
    ∷ (0x2A74, "Gust Factor")
    ∷ (0x2A27, "Hardware Revision String")
    ∷ (0x2A39, "Heart Rate Control Point")
    ∷ (0x2A8D, "Heart Rate Max")
    ∷ (0x2A37, "Heart Rate Measurement")
    ∷ (0x2A7A, "Heat Index")
    ∷ (0x2A8E, "Height")
    ∷ (0x2A4C, "HID Control Point")
    ∷ (0x2A4A, "HID Information")
    ∷ (0x2A8F, "Hip Circumference")
    ∷ (0x2A6F, "Humidity")
    ∷ (0x2A2A, "IEEE 11073-20601 Regulatory Certification Data List")
    ∷ (0x2AAD, "Indoor Positioning Configuration")
    ∷ (0x2A36, "Intermediate Cuff Pressure")
    ∷ (0x2A1E, "Intermediate Temperature")
    ∷ (0x2A77, "Irradiance")
    ∷ (0x2AA2, "Language")
    ∷ (0x2A90, "Last Name")
    ∷ (0x2AAE, "Latitude")
    ∷ (0x2A6B, "LN Control Pointt")
    ∷ (0x2A6A, "LN Feature")
    ∷ (0x2AB1, "Local East Coordinate")
    ∷ (0x2AB0, "Local North Coordinate")
    ∷ (0x2A0F, "Local Time Information")
    ∷ (0x2A67, "Location and Speed")
    ∷ (0x2AB5, "Location Name")
    ∷ []
