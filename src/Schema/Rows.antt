-- ===== src/Schema/Rows.antt =====
-- The tables of src/common/database/schema/index.ts.
use Prim.Native.String.{String}
use obbian_ribe_booking_app.Base.{ℕ, ℤ, Bool, Option, List}
use obbian_ribe_booking_app.Schema.Enums.{
  RideStatus, RideType, DriverStatus, PaymentStatus, PaymentMethod, CancellationReason,
  OutboxStatus, ScheduledStatus, UserRole,
}

pub record Ride : Type 0 where
  pub id : ℕ
  pub rider_id : ℕ
  pub driver_id : Option ℕ
  pub ride_type : RideType
  pub status : RideStatus
  pub pickup_lat : ℤ
  pub pickup_lon : ℤ
  pub pickup_address : Option String
  pub dropoff_lat : ℤ
  pub dropoff_lon : ℤ
  pub dropoff_address : Option String
  pub city : String
  pub estimated_fare : ℕ
  pub total_fare : Option ℕ
  pub surge_multiplier : ℕ
  pub distance_km : ℕ  -- hundredths
  pub duration_min : ℕ
  pub promo_code : Option (List ℕ)
  pub promo_discount : ℕ
  pub payment_status : PaymentStatus
  pub payment_method : PaymentMethod
  pub accepted_at : Option ℕ
  pub arrived_at : Option ℕ
  pub started_at : Option ℕ
  pub completed_at : Option ℕ
  pub cancelled_at : Option ℕ
  pub cancellation_reason : Option CancellationReason
  pub cancellation_fee : ℕ
  pub rider_rating : Option ℕ
  pub driver_rating : Option ℕ
  pub created_at : ℕ
  pub updated_at : ℕ

pub record User : Type 0 where
  pub id : ℕ
  pub phone_number : String
  pub email : Option String
  pub first_name : Option String
  pub last_name : Option String
  pub profile_image_url : Option String
  pub role : UserRole
  pub rating : ℕ  -- hundredths
  pub is_verified : Bool
  pub last_login_at : Option ℕ
  pub created_at : ℕ
  pub updated_at : ℕ

pub record RefreshToken : Type 0 where
  pub id : ℕ
  pub user_id : ℕ
  pub token_hash : String
  pub expires_at : ℕ
  pub device_info : Option String
  pub revoked_at : Option ℕ
  pub rotated_at : Option ℕ
  pub created_at : ℕ

pub record SavedLocation : Type 0 where
  pub id : ℕ
  pub user_id : ℕ
  pub label : String
  pub lat : ℤ
  pub lon : ℤ
  pub address : Option String
  pub created_at : ℕ

pub record Driver : Type 0 where
  pub user_id : ℕ
  pub license_number : String
  pub vehicle_registration : String
  pub vehicle_model : Option String
  pub vehicle_color : Option String
  pub vehicle_type : RideType
  pub status : DriverStatus
  pub rating : ℕ  -- hundredths
  pub total_rides : ℕ
  pub completion_rate : ℕ
  pub acceptance_rate : ℕ
  pub wallet_balance : ℤ
  pub bank_account : Option String
  pub upi_id : Option String
  pub last_location_update_at : Option ℕ
  pub online_since : Option ℕ
  pub created_at : ℕ
  pub updated_at : ℕ

pub record ScheduledRide : Type 0 where
  pub id : ℕ
  pub rider_id : ℕ
  pub ride_id : Option ℕ
  pub pickup_lat : ℤ
  pub pickup_lon : ℤ
  pub dropoff_lat : ℤ
  pub dropoff_lon : ℤ
  pub ride_type : RideType
  pub city : String
  pub scheduled_for : ℕ
  pub status : ScheduledStatus
  pub created_at : ℕ
  pub updated_at : ℕ

pub record Payment : Type 0 where
  pub id : ℕ
  pub ride_id : ℕ
  pub user_id : ℕ
  pub amount : ℕ
  pub currency : String
  pub status : PaymentStatus
  pub method : PaymentMethod
  pub gateway : String
  pub gateway_order_id : Option ℕ
  pub gateway_payment_id : Option ℕ
  pub failure_reason : Option String
  pub retry_count : ℕ
  pub paid_at : Option ℕ
  pub refunded_at : Option ℕ
  pub created_at : ℕ
  pub updated_at : ℕ

-- `discount_percent` in hundredths of a percent; a code is its characters.
pub record Promo : Type 0 where
  pub id : ℕ
  pub code : List ℕ
  pub discount_percent : ℕ
  pub max_discount : ℕ
  pub max_uses_per_user : ℕ
  pub valid_from : Option ℕ
  pub valid_until : Option ℕ
  pub is_active : Bool
  pub created_at : ℕ

pub record FareConfig : Type 0 where
  pub id : ℕ
  pub city : String
  pub ride_type : RideType
  pub base_fare : ℕ
  pub per_km_rate : ℕ
  pub per_minute_rate : ℕ
  pub surge_multiplier : ℕ
  pub minimum_fare : ℕ
  pub commission_rate : ℕ
  pub is_active : Bool

-- The payload of a ride event (src/shared/events/contracts.ts). `occurredAt` is left out.
pub record RideEventPayload : Type 0 where
  pub ride_id : ℕ
  pub rider_id : ℕ
  pub driver_id : Option ℕ
  pub status : RideStatus
  pub ride_type : RideType
  pub total_fare : Option ℕ
  pub cancellation_reason : Option CancellationReason
  pub cancellation_fee : Option ℕ

pub record OutboxEvent : Type 0 where
  pub id : ℕ
  pub topic : String
  pub event_type : String
  pub aggregate_type : String
  pub aggregate_id : ℕ
  pub payload : RideEventPayload
  pub status : OutboxStatus
  pub attempts : ℕ
  pub last_error : Option String
  pub created_at : ℕ
  pub updated_at : ℕ
  pub published_at : Option ℕ
