-- ===== src/Attendance/Maintenance/Reset.antt =====
-- src/attendance/AttendanceEngine.cpp: `resetSiteActivity` forgets everything or nothing.
use monk_skud_unex.Base.{[], ◌≡◌, arith, if◌then◌else◌}
use monk_skud_unex.Attendance.{Store, Engine, persist}
use monk_skud_unex.Attendance.Maintenance.{reset_site_activity}

module _ {W : Type 0} (store : Store W) where
  -- The reset answers whether it happened: on true the states and the activities are empty, and on false,
  -- whichever of the two saves failed, both are what they were. No notification is sent either way.
  pub reset_site_activity-states :
      (g : Engine W)
      → let r = reset_site_activity store g in
        (r.1.states ≡ (if r.0 then [] else g.states))
        × (r.1.activities ≡ (if r.0 then [] else g.activities))
        × (r.1.notified ≡ g.notified)
  unfolding reset_site_activity persist
  reset_site_activity-states g = ground arith
