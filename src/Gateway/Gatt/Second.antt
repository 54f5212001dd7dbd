-- ===== src/Gateway/Gatt/Second.antt =====
-- The other cases of `GetGATTDescriptions` of BLEGatewayApplication/GATT_SPECIFICATIONS.cpp.
use io_tblegateway.Common.{ℕ, List, [], ◌∷◌}
use Prim.Native.String.{String}

abbrev pub second_descriptions : List (ℕ × String)
second_descriptions =
    (0x2AAF, "Longitude")
    ∷ (0x2A2C, "Magnetic Declination")
    ∷ (0x2AA0, "Magnetic Flux Density - 2D")
    ∷ (0x2AA1, "Magnetic Flux Density - 3D")
    ∷ (0x2A29, "Manufacturer Name String")
    ∷ (0x2A91, "Maximum Recommended Heart Rate")
    ∷ (0x2A21, "Measurement Interval")
    ∷ (0x2A24, "Model Number String")
    ∷ (0x2A68, "Navigation")
    ∷ (0x2A46, "New Alert")
    ∷ (0x2A04, "Peripheral Preferred Connection Parameters")
    ∷ (0x2A02, "Peripheral Privacy Flag")
    ∷ (0x2A50, "PnP ID")
    ∷ (0x2A75, "Pollen Concentration")
    ∷ (0x2A69, "Position Quality")
    ∷ (0x2A6D, "Pressure")
    ∷ (0x2A4E, "Protocol Mode")
    ∷ (0x2A78, "Rainfall")
    ∷ (0x2A03, "Reconnection Address")
    ∷ (0x2A52, "Record Access Control Point")
    ∷ (0x2A14, "Reference Time Information")
    ∷ (0x2A4D, "Report")
    ∷ (0x2A4B, "Report Map")
    ∷ (0x2A92, "Resting Heart Rate")
    ∷ (0x2A40, "Ringer Control Point")
    ∷ (0x2A41, "Ringer Setting")
    ∷ (0x2A54, "RSC Feature")
    ∷ (0x2A53, "RSC Measurement")
    ∷ (0x2A55, "SC Control Point")
    ∷ (0x2A4F, "Scan Interval Window")
    ∷ (0x2A31, "Scan Refresh")
    ∷ (0x2A5D, "Sensor Location")
    ∷ (0x2A25, "Serial Number String")
    ∷ (0x2A05, "Service Changed")
    ∷ (0x2A28, "Software Revision String")
    ∷ (0x2A93, "Sport Type for Aerobic and Anaerobic Thresholds")
    ∷ (0x2A47, "Supported New Alert Category")
    ∷ (0x2A48, "Supported Unread Alert Category")
    ∷ (0x2A23, "System ID")
    ∷ (0x2A6E, "Temperature")
    ∷ (0x2A1C, "Temperature Measurement")
    ∷ (0x2A1D, "Temperature Type")
    ∷ (0x2A94, "Three Zone Heart Rate Limits")
    ∷ (0x2A12, "Time Accuracy")
    ∷ (0x2A13, "Time Source")
    ∷ (0x2A16, "Time Update Control Point")
    ∷ (0x2A17, "Time Update State")
    ∷ (0x2A11, "Time with DST")
    ∷ (0x2A0E, "Time Zone")
    ∷ (0x2A71, "True Wind Direction")
    ∷ (0x2A70, "True Wind Speed")
    ∷ (0x2A95, "Two Zone Heart Rate Limit")
    ∷ (0x2A07, "Tx Power Level")
    ∷ (0x2AB4, "Uncertainty")
    ∷ (0x2A45, "Unread Alert Status")
    ∷ (0x2A9F, "User Control Point")
    ∷ (0x2A9A, "User Index")
    ∷ (0x2A76, "UV Index")
    ∷ (0x2A96, "VO2 Max")
    ∷ (0x2A97, "Waist Circumference ")
    ∷ (0x2A98, "Weight")
    ∷ (0x2A9D, "Weight Measurement")
    ∷ (0x2A9E, "Weight Scale Feature")
    ∷ (0x2A79, "Wind Chill")
    ∷ (0x2A5A, "Aggregate")
    ∷ (0x2A58, "Analog")
    ∷ (0x2A56, "Digital")
    ∷ (0x1811, "Alert Notification Service")
    ∷ (0x180F, "Battery Service")
    ∷ (0x1810, "Blood Pressure")
    ∷ (0x181B, "Body Composition")
    ∷ (0x181E, "Bond Management")
    ∷ (0x181F, "Continuous Glucose Monitoring")
    ∷ (0x1805, "Current Time Service")
    ∷ (0x1818, "Cycling Power")
    ∷ (0x1816, "Cycling Speed and Cadence")
    ∷ (0x180A, "Device Information")
    ∷ (0x181A, "Environmental Sensing")
    ∷ (0x1800, "Generic Access")
    ∷ (0x1801, "Generic Attribute")
    ∷ (0x1808, "Glucose")
    ∷ (0x1809, "Health Thermometer")
    ∷ (0x180D, "Heart Rate")
    ∷ (0x1812, "Human Interface Device")
    ∷ (0x1802, "Immediate Alert")
    ∷ (0x1821, "Indoor Positioning")
    ∷ (0x1820, "Internet Protocol Support")
    ∷ (0x1803, "Link Loss")
    ∷ (0x1819, "Location and Navigation")
    ∷ (0x1807, "Next DST Change Service")
    ∷ (0x180E, "Phone Alert Status Service")
    ∷ (0x1806, "Reference Time Update Service")
    ∷ (0x1814, "Running Speed and Cadence")
    ∷ (0x1813, "Scan Parameters")
    ∷ (0x1804, "Tx Power")
    ∷ (0x181C, "User Data")
    ∷ (0x181D, "Weight Scale")
    ∷ (0x1815, "Automation IO")
    ∷ []
